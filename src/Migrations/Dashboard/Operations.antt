-- ===== src/Migrations/Dashboard/Operations.antt =====
-- alembic/versions/0012: the cards of the operations, each with its slug, its two labels and the file of
-- its image.
use awa_platform.Prelude.{String, List, [], ◌∷◌}

abbrev pub operations_cards : List (String × String × String × String)
operations_cards =
    (
      "addnew-car", "Add a New Car",
      "\u{625}\u{636}\u{627}\u{641}\u{629} \u{633}\u{64a}\u{627}\u{631}\u{629} \u{62c}\u{62f}\u{64a}\u{62f}\u{629}",
      "add-new-car.svg",
    )
    ∷ (
      "add-new-car-from-erp", "Request Vehicle from ERP",
      "\u{637}\u{644}\u{628} \u{645}\u{631}\u{643}\u{628}\u{629} \u{645}\u{646} \u{646}\u{638}\u{627}\u{645} ERP",
      "add-new-car.svg",
    )
    ∷ (
      "request-vehicle", "Request Vehicle",
      "\u{637}\u{644}\u{628} \u{645}\u{631}\u{643}\u{628}\u{629}", "request vehicle.svg",
    )
    ∷ (
      "washed-vehicle", "Washed Vehicle",
      "\u{645}\u{631}\u{643}\u{628}\u{629} \u{645}\u{63a}\u{633}\u{648}\u{644}\u{629}",
      "Washed vehicle.svg",
    )
    ∷ (
      "photo-vehicle", "Photo Vehicle",
      "\u{62a}\u{635}\u{648}\u{64a}\u{631} \u{627}\u{644}\u{645}\u{631}\u{643}\u{628}\u{629}",
      "photo vehicle.svg",
    )
    ∷ (
      "technical-test", "Technical Test",
      "\u{627}\u{644}\u{641}\u{62d}\u{635} \u{627}\u{644}\u{641}\u{646}\u{64a}",
      "tecnical report.svg",
    )
    ∷ (
      "submitted-by-seller", "Submitted by Seller",
      "\u{645}\u{642}\u{62f}\u{645}\u{629} \u{645}\u{646} \u{627}\u{644}\u{628}\u{627}\u{626}\u{639}",
      "submit by seller.svg",
    )
    ∷ (
      "inactive-auctions", "Inactive Auctions",
      "\u{627}\u{644}\u{645}\u{632}\u{627}\u{62f}\u{627}\u{62a} \u{63a}\u{64a}\u{631} \u{627}\u{644}\u{646}\u{634}\u{637}\u{629}",
      "inactive auction.svg",
    )
    ∷ (
      "active-auctionn", "Active Auctions",
      "\u{627}\u{644}\u{645}\u{632}\u{627}\u{62f}\u{627}\u{62a} \u{627}\u{644}\u{646}\u{634}\u{637}\u{629}",
      "Active auction.svg",
    )
    ∷ (
      "awarded-report", "Awarded Report",
      "\u{62a}\u{642}\u{631}\u{64a}\u{631} \u{627}\u{644}\u{62a}\u{631}\u{633}\u{64a}\u{629}",
      "awarded report.svg",
    )
    ∷ (
      "approved-by-seller", "Approved by Seller",
      "\u{645}\u{639}\u{62a}\u{645}\u{62f}\u{629} \u{645}\u{646} \u{627}\u{644}\u{628}\u{627}\u{626}\u{639}",
      "Approved by seller.svg",
    )
    ∷ (
      "underapproval", "Under Approval",
      "\u{642}\u{64a}\u{62f} \u{627}\u{644}\u{645}\u{648}\u{627}\u{641}\u{642}\u{629}",
      "under approval.svg",
    )
    ∷ (
      "sold-vehicle", "Sold Undelivered",
      "\u{645}\u{628}\u{627}\u{639}\u{629} \u{648}\u{63a}\u{64a}\u{631} \u{645}\u{633}\u{644}\u{645}\u{629}",
      "sold undelivered.svg",
    )
    ∷ (
      "buyer-change", "Buyer Change",
      "\u{62a}\u{63a}\u{64a}\u{64a}\u{631} \u{627}\u{644}\u{645}\u{634}\u{62a}\u{631}\u{64a}",
      "buyer change.svg",
    )
    ∷ (
      "completed-bch-services", "Completed B.Ch Services",
      "\u{62e}\u{62f}\u{645}\u{627}\u{62a} B.Ch \u{627}\u{644}\u{645}\u{643}\u{62a}\u{645}\u{644}\u{629}",
      "Completed B.Ch Services.svg",
    )
    ∷ (
      "car-inspection-services", "Car Inspection Services",
      "\u{62e}\u{62f}\u{645}\u{627}\u{62a} \u{641}\u{62d}\u{635} \u{627}\u{644}\u{633}\u{64a}\u{627}\u{631}\u{629}",
      "Car inspection services.svg",
    )
    ∷ (
      "unsold-vehicle", "Unsold", "\u{63a}\u{64a}\u{631} \u{645}\u{628}\u{627}\u{639}\u{629}",
      "unsold-1.svg",
    )
    ∷ (
      "completed-inspection-services", "Completed Inspection Services",
      "\u{62e}\u{62f}\u{645}\u{627}\u{62a} \u{627}\u{644}\u{641}\u{62d}\u{635} \u{627}\u{644}\u{645}\u{643}\u{62a}\u{645}\u{644}\u{629}",
      "Completed Inspection Services.svg",
    )
    ∷ (
      "sold-delivered", "Sold Delivered",
      "\u{645}\u{628}\u{627}\u{639}\u{629} \u{648}\u{645}\u{633}\u{644}\u{645}\u{629}",
      "sold delivered.svg",
    )
    ∷ (
      "get-archived-list", "Archived Vehicle",
      "\u{645}\u{631}\u{643}\u{628}\u{629} \u{645}\u{624}\u{631}\u{634}\u{641}\u{629}",
      "Archived vehicle.svg",
    )
    ∷ (
      "marketing", "Marketing", "\u{627}\u{644}\u{62a}\u{633}\u{648}\u{64a}\u{642}",
      "marketing.svg",
    )
    ∷ (
      "pending_services", "Pending Services",
      "\u{627}\u{644}\u{62e}\u{62f}\u{645}\u{627}\u{62a} \u{627}\u{644}\u{645}\u{639}\u{644}\u{642}\u{629}",
      "pending servies.svg",
    )
    ∷ (
      "services-in-process", "Services in Process",
      "\u{627}\u{644}\u{62e}\u{62f}\u{645}\u{627}\u{62a} \u{642}\u{64a}\u{62f} \u{627}\u{644}\u{62a}\u{646}\u{641}\u{64a}\u{630}",
      "Services in progress.svg",
    )
    ∷ (
      "completed-requests", "Completed Requests",
      "\u{627}\u{644}\u{637}\u{644}\u{628}\u{627}\u{62a} \u{627}\u{644}\u{645}\u{643}\u{62a}\u{645}\u{644}\u{629}",
      "Completed services.svg",
    )
    ∷ (
      "sp-requested-services", "SP Requested Services",
      "\u{627}\u{644}\u{62e}\u{62f}\u{645}\u{627}\u{62a} \u{627}\u{644}\u{645}\u{637}\u{644}\u{648}\u{628}\u{629} \u{645}\u{646} \u{645}\u{632}\u{648}\u{62f} \u{627}\u{644}\u{62e}\u{62f}\u{645}\u{629}",
      "report.png",
    )
    ∷ (
      "completed-sp-services", "Completed SP Services",
      "\u{62e}\u{62f}\u{645}\u{627}\u{62a} \u{645}\u{632}\u{648}\u{62f} \u{627}\u{644}\u{62e}\u{62f}\u{645}\u{629} \u{627}\u{644}\u{645}\u{643}\u{62a}\u{645}\u{644}\u{629}",
      "report.png",
    )
    ∷ (
      "operations-logs", "Operation Log",
      "\u{633}\u{62c}\u{644} \u{627}\u{644}\u{639}\u{645}\u{644}\u{64a}\u{627}\u{62a}", "log.png",
    )
    ∷ (
      "under-approval-direct-sales", "Under Approval Direct Sales",
      "\u{627}\u{644}\u{628}\u{64a}\u{639} \u{627}\u{644}\u{645}\u{628}\u{627}\u{634}\u{631} \u{642}\u{64a}\u{62f} \u{627}\u{644}\u{645}\u{648}\u{627}\u{641}\u{642}\u{629}",
      "attestation.png",
    )
    ∷ (
      "center-manager", "Center Manager",
      "\u{645}\u{62f}\u{64a}\u{631} \u{627}\u{644}\u{645}\u{631}\u{643}\u{632}",
      "awarded report.svg",
    )
    ∷ []
