-- ===== src/Migrations/Dashboard/Sections.antt =====
-- alembic/versions/0013 to 0016: the cards of four sections of the back office, each with its slug,
-- its two labels and the file of its image.
use awa_platform.Prelude.{String, List, [], ◌∷◌}

abbrev pub management_cards : List (String × String × String × String)
management_cards =
    (
      "active-auctions", "Active Auctions",
      "\u{627}\u{644}\u{645}\u{632}\u{627}\u{62f}\u{627}\u{62a} \u{627}\u{644}\u{646}\u{634}\u{637}\u{629}",
      "Active auction.svg",
    )
    ∷ (
      "sales-invoice-details", "Sales Invoice Details",
      "\u{62a}\u{641}\u{627}\u{635}\u{64a}\u{644} \u{641}\u{627}\u{62a}\u{648}\u{631}\u{629} \u{627}\u{644}\u{645}\u{628}\u{64a}\u{639}\u{627}\u{62a}",
      "Sales invoice details.svg",
    )
    ∷ (
      "sellers-report", "Sellers Report",
      "\u{62a}\u{642}\u{631}\u{64a}\u{631} \u{627}\u{644}\u{628}\u{627}\u{626}\u{639}\u{64a}\u{646}",
      "Sales report.svg",
    )
    ∷ (
      "sales-report", "Sales Report",
      "\u{62a}\u{642}\u{631}\u{64a}\u{631} \u{627}\u{644}\u{645}\u{628}\u{64a}\u{639}\u{627}\u{62a}",
      "Sales report.svg",
    )
    ∷ (
      "auction-list", "Auction List",
      "\u{642}\u{627}\u{626}\u{645}\u{629} \u{627}\u{644}\u{645}\u{632}\u{627}\u{62f}\u{627}\u{62a}",
      "seller report.svg",
    )
    ∷ (
      "customers-list", "Customer List",
      "\u{642}\u{627}\u{626}\u{645}\u{629} \u{627}\u{644}\u{639}\u{645}\u{644}\u{627}\u{621}",
      "Customer list.svg",
    )
    ∷ (
      "auction-batch-list", "Auction Batch List",
      "\u{642}\u{627}\u{626}\u{645}\u{629} \u{62f}\u{641}\u{639}\u{627}\u{62a} \u{627}\u{644}\u{645}\u{632}\u{627}\u{62f}",
      "Auction Batch List.svg",
    )
    ∷ (
      "sellers-list", "Seller List",
      "\u{642}\u{627}\u{626}\u{645}\u{629} \u{627}\u{644}\u{628}\u{627}\u{626}\u{639}\u{64a}\u{646}",
      "Seller list.svg",
    )
    ∷ (
      "income-totals", "Income Totals",
      "\u{625}\u{62c}\u{645}\u{627}\u{644}\u{64a} \u{627}\u{644}\u{62f}\u{62e}\u{644}",
      "income total.svg",
    )
    ∷ (
      "monthly-income-totals", "Monthly Income Totals",
      "\u{625}\u{62c}\u{645}\u{627}\u{644}\u{64a} \u{627}\u{644}\u{62f}\u{62e}\u{644} \u{627}\u{644}\u{634}\u{647}\u{631}\u{64a}",
      "monthly income totals.svg",
    )
    ∷ (
      "employees-permission", "Employees Permission",
      "\u{635}\u{644}\u{627}\u{62d}\u{64a}\u{627}\u{62a} \u{627}\u{644}\u{645}\u{648}\u{638}\u{641}\u{64a}\u{646}",
      "permissions.svg",
    )
    ∷ (
      "penalty-management", "Penalty Management",
      "\u{625}\u{62f}\u{627}\u{631}\u{629} \u{627}\u{644}\u{63a}\u{631}\u{627}\u{645}\u{627}\u{62a}",
      "Auction Batch List.svg",
    )
    ∷ []

abbrev pub accountant_cards : List (String × String × String × String)
accountant_cards =
    (
      "Sold-Vehicles", "Sold Undelivered",
      "\u{645}\u{628}\u{627}\u{639}\u{629} \u{648}\u{63a}\u{64a}\u{631} \u{645}\u{633}\u{644}\u{645}\u{629}",
      "sold undelivered.svg",
    )
    ∷ (
      "car-inspection-invoices", "Car Inspection Invoices",
      "\u{641}\u{648}\u{627}\u{62a}\u{64a}\u{631} \u{641}\u{62d}\u{635} \u{627}\u{644}\u{633}\u{64a}\u{627}\u{631}\u{629}",
      "Car inspection services.svg",
    )
    ∷ (
      "buyer-change-invoices", "Buyer Change Invoices",
      "\u{641}\u{648}\u{627}\u{62a}\u{64a}\u{631} \u{62a}\u{63a}\u{64a}\u{64a}\u{631} \u{627}\u{644}\u{645}\u{634}\u{62a}\u{631}\u{64a}",
      "Buyer change incvoice.svg",
    )
    ∷ (
      "seller-invoice-list", "Seller Invoice List",
      "\u{642}\u{627}\u{626}\u{645}\u{629} \u{641}\u{648}\u{627}\u{62a}\u{64a}\u{631} \u{627}\u{644}\u{628}\u{627}\u{626}\u{639}",
      "Seller invoice list.svg",
    )
    ∷ (
      "buyer-invoice-list", "Buyer Invoice List",
      "\u{642}\u{627}\u{626}\u{645}\u{629} \u{641}\u{648}\u{627}\u{62a}\u{64a}\u{631} \u{627}\u{644}\u{645}\u{634}\u{62a}\u{631}\u{64a}",
      "Buyer invoice list.svg",
    )
    ∷ (
      "seller-payments", "Seller Payments",
      "\u{645}\u{62f}\u{641}\u{648}\u{639}\u{627}\u{62a} \u{627}\u{644}\u{628}\u{627}\u{626}\u{639}",
      "Seller payments.svg",
    )
    ∷ (
      "buyer-payments", "Buyer Payments",
      "\u{645}\u{62f}\u{641}\u{648}\u{639}\u{627}\u{62a} \u{627}\u{644}\u{645}\u{634}\u{62a}\u{631}\u{64a}",
      "Buyer payments.svg",
    )
    ∷ (
      "customer", "Customers", "\u{627}\u{644}\u{639}\u{645}\u{644}\u{627}\u{621}", "Customers.svg",
    )
    ∷ (
      "security-deposit", "Security Deposit",
      "\u{627}\u{644}\u{648}\u{62f}\u{64a}\u{639}\u{629} \u{627}\u{644}\u{636}\u{645}\u{627}\u{646}\u{64a}\u{629}",
      "Security deposits.svg",
    )
    ∷ (
      "seller-invoices-list", "Seller Invoice List",
      "\u{642}\u{627}\u{626}\u{645}\u{629} \u{641}\u{648}\u{627}\u{62a}\u{64a}\u{631} \u{627}\u{644}\u{628}\u{627}\u{626}\u{639}",
      "Seller invoice list.svg",
    )
    ∷ (
      "fines-penalties", "Fines and Penalties",
      "\u{627}\u{644}\u{63a}\u{631}\u{627}\u{645}\u{627}\u{62a} \u{648}\u{627}\u{644}\u{639}\u{642}\u{648}\u{628}\u{627}\u{62a}",
      "Seller invoice list.svg",
    )
    ∷ []

abbrev pub reports_cards : List (String × String × String × String)
reports_cards =
    (
      "statistical-report", "Statistical Report",
      "\u{627}\u{644}\u{62a}\u{642}\u{631}\u{64a}\u{631} \u{627}\u{644}\u{625}\u{62d}\u{635}\u{627}\u{626}\u{64a}",
      "Statical Report.svg",
    )
    ∷ (
      "sales-report", "Sales Report",
      "\u{62a}\u{642}\u{631}\u{64a}\u{631} \u{627}\u{644}\u{645}\u{628}\u{64a}\u{639}\u{627}\u{62a}",
      "Sales report.svg",
    )
    ∷ (
      "sales-report-by-features", "Sales Report by Features",
      "\u{62a}\u{642}\u{631}\u{64a}\u{631} \u{627}\u{644}\u{645}\u{628}\u{64a}\u{639}\u{627}\u{62a} \u{62d}\u{633}\u{628} \u{627}\u{644}\u{645}\u{64a}\u{632}\u{627}\u{62a}",
      "Sales Report By Features.svg",
    )
    ∷ (
      "active-auction", "Active Auctions",
      "\u{627}\u{644}\u{645}\u{632}\u{627}\u{62f}\u{627}\u{62a} \u{627}\u{644}\u{646}\u{634}\u{637}\u{629}",
      "Active auction.svg",
    )
    ∷ (
      "auction-end", "Auction End",
      "\u{627}\u{646}\u{62a}\u{647}\u{627}\u{621} \u{627}\u{644}\u{645}\u{632}\u{627}\u{62f}",
      "Auction end.svg",
    )
    ∷ (
      "car-price-report", "Car Price Report",
      "\u{62a}\u{642}\u{631}\u{64a}\u{631} \u{623}\u{633}\u{639}\u{627}\u{631} \u{627}\u{644}\u{633}\u{64a}\u{627}\u{631}\u{627}\u{62a}",
      "Car inspection report.svg",
    )
    ∷ (
      "feature-car-price-report", "Feature Car Price Report",
      "\u{62a}\u{642}\u{631}\u{64a}\u{631} \u{623}\u{633}\u{639}\u{627}\u{631} \u{627}\u{644}\u{633}\u{64a}\u{627}\u{631}\u{627}\u{62a} \u{627}\u{644}\u{645}\u{645}\u{64a}\u{632}\u{629}",
      "Feature car price report.svg",
    )
    ∷ (
      "delivered-vehicles", "Delivered Vehicles",
      "\u{627}\u{644}\u{645}\u{631}\u{643}\u{628}\u{627}\u{62a} \u{627}\u{644}\u{645}\u{633}\u{644}\u{645}\u{629}",
      "Feature car price report.svg",
    )
    ∷ (
      "auction-reports", "Auction Reports",
      "\u{62a}\u{642}\u{627}\u{631}\u{64a}\u{631} \u{627}\u{644}\u{645}\u{632}\u{627}\u{62f}\u{627}\u{62a}",
      "Feature car price report.svg",
    )
    ∷ (
      "vehicle-management", "Vehicle Management",
      "\u{625}\u{62f}\u{627}\u{631}\u{629} \u{627}\u{644}\u{645}\u{631}\u{643}\u{628}\u{627}\u{62a}",
      "Feature car price report.svg",
    )
    ∷ (
      "buyer-reports", "Buyer Report",
      "\u{62a}\u{642}\u{631}\u{64a}\u{631} \u{627}\u{644}\u{645}\u{634}\u{62a}\u{631}\u{64a}",
      "Feature car price report.svg",
    )
    ∷ (
      "sellers-reports", "Seller Report",
      "\u{62a}\u{642}\u{631}\u{64a}\u{631} \u{627}\u{644}\u{628}\u{627}\u{626}\u{639}",
      "Feature car price report.svg",
    )
    ∷ (
      "other-reports", "Other Reports",
      "\u{62a}\u{642}\u{627}\u{631}\u{64a}\u{631} \u{623}\u{62e}\u{631}\u{649}",
      "Feature car price report.svg",
    )
    ∷ (
      "brand-performance-report", "Brand Performance Report",
      "\u{62a}\u{642}\u{631}\u{64a}\u{631} \u{623}\u{62f}\u{627}\u{621} \u{627}\u{644}\u{639}\u{644}\u{627}\u{645}\u{629} \u{627}\u{644}\u{62a}\u{62c}\u{627}\u{631}\u{64a}\u{629}",
      "Feature car price report.svg",
    )
    ∷ (
      "inspection-reports", "Inspection Reports",
      "\u{62a}\u{642}\u{627}\u{631}\u{64a}\u{631} \u{627}\u{644}\u{641}\u{62d}\u{635}",
      "Feature car price report.svg",
    )
    ∷ (
      "approval-creation", "Approval Creation",
      "\u{625}\u{646}\u{634}\u{627}\u{621} \u{627}\u{644}\u{645}\u{648}\u{627}\u{641}\u{642}\u{629}",
      "Feature car price report.svg",
    )
    ∷ []

abbrev pub admin_cards : List (String × String × String × String)
admin_cards =
    (
      "service-list", "Service List",
      "\u{642}\u{627}\u{626}\u{645}\u{629} \u{627}\u{644}\u{62e}\u{62f}\u{645}\u{629}",
      "service.png",
    )
    ∷ (
      "expense-list", "Expense List",
      "\u{642}\u{627}\u{626}\u{645}\u{629} \u{627}\u{644}\u{645}\u{635}\u{631}\u{648}\u{641}\u{627}\u{62a}",
      "Expense List.svg",
    )
    ∷ (
      "features-list", "Features Management",
      "\u{625}\u{62f}\u{627}\u{631}\u{629} \u{627}\u{644}\u{645}\u{64a}\u{632}\u{627}\u{62a}",
      "features.svg",
    )
    ∷ (
      "make-model", "Makes and Models Management",
      "\u{625}\u{62f}\u{627}\u{631}\u{629} \u{627}\u{644}\u{645}\u{627}\u{631}\u{643}\u{627}\u{62a} \u{648}\u{627}\u{644}\u{645}\u{648}\u{62f}\u{64a}\u{644}\u{627}\u{62a}",
      "Makes Models.svg",
    )
    ∷ (
      "locations", "Location List",
      "\u{642}\u{627}\u{626}\u{645}\u{629} \u{627}\u{644}\u{645}\u{648}\u{627}\u{642}\u{639}",
      "my-invoices.svg",
    )
    ∷ (
      "services", "Services List",
      "\u{642}\u{627}\u{626}\u{645}\u{629} \u{627}\u{644}\u{62e}\u{62f}\u{645}\u{627}\u{62a}",
      "service.png",
    )
    ∷ (
      "message-templates", "Message Templates",
      "\u{642}\u{648}\u{627}\u{644}\u{628} \u{627}\u{644}\u{631}\u{633}\u{627}\u{626}\u{644}",
      "Message Templates.svg",
    )
    ∷ (
      "auction-groups", "Auction Groups",
      "\u{645}\u{62c}\u{645}\u{648}\u{639}\u{627}\u{62a} \u{627}\u{644}\u{645}\u{632}\u{627}\u{62f}\u{627}\u{62a}",
      "totalcustomer.svg",
    )
    ∷ (
      "inspection-packages", "Inspection Packages",
      "\u{628}\u{627}\u{642}\u{627}\u{62a} \u{627}\u{644}\u{641}\u{62d}\u{635}", "Expense List.svg",
    )
    ∷ (
      "compliance-details", "Complaint Details",
      "\u{62a}\u{641}\u{627}\u{635}\u{64a}\u{644} \u{627}\u{644}\u{634}\u{643}\u{627}\u{648}\u{649}",
      "Expense List.svg",
    )
    ∷ []
