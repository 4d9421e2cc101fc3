-- ===== src/Migrations/Dashboard/Seeds.antt =====
-- alembic/versions/0010 and 0011: the first entries of the navigation, with their labels, icon and
-- address, and the first cards, with their labels, descriptions, icon and address.
use awa_platform.Prelude.{String, Option, none, some, List, [], ◌∷◌}

abbrev pub nav_seeds : List (String × String × Option String × String)
nav_seeds =
    (
      "Home",
      "\u{627}\u{644}\u{631}\u{626}\u{64a}\u{633}\u{64a}\u{629}",
      some "fa-solid fa-house",
      "/",
    )
    ∷ (
      "Sellers",
      "\u{627}\u{644}\u{628}\u{627}\u{626}\u{639}\u{648}\u{646}",
      some "fa-solid fa-user-tag",
      "/admin/sellers",
    )
    ∷ (
      "Operations",
      "\u{627}\u{644}\u{639}\u{645}\u{644}\u{64a}\u{627}\u{62a}",
      some "fa-solid fa-gears",
      "/admin/operations",
    )
    ∷ (
      "Management",
      "\u{627}\u{644}\u{625}\u{62f}\u{627}\u{631}\u{629}",
      some "fa-solid fa-users-gear",
      "/admin/management",
    )
    ∷ (
      "Accountant",
      "\u{627}\u{644}\u{645}\u{62d}\u{627}\u{633}\u{628}\u{629}",
      some "fa-solid fa-file-invoice-dollar",
      "/admin/accountant",
    )
    ∷ (
      "Reports",
      "\u{627}\u{644}\u{62a}\u{642}\u{627}\u{631}\u{64a}\u{631}",
      some "fa-solid fa-chart-column",
      "/admin/reports",
    )
    ∷ (
      "Admin",
      "\u{627}\u{644}\u{625}\u{62f}\u{627}\u{631}\u{629} \u{627}\u{644}\u{639}\u{627}\u{645}\u{629}",
      some "fa-solid fa-user-shield",
      "/admin",
    )
    ∷ []

abbrev pub submenu_seeds : List (String × String × Option String × String)
submenu_seeds =
    (
      "Dashboard", "\u{644}\u{648}\u{62d}\u{629} \u{627}\u{644}\u{62a}\u{62d}\u{643}\u{645}", none,
      "/admin/dashboard",
    )
    ∷ (
      "In Store", "\u{62f}\u{627}\u{62e}\u{644} \u{627}\u{644}\u{645}\u{62a}\u{62c}\u{631}", none,
      "/admin/instore",
    )
    ∷ []

abbrev pub dashboard_section : List (String × String × String × String × String × String)
dashboard_section =
    (
      "Auctions", "\u{627}\u{644}\u{645}\u{632}\u{627}\u{62f}\u{627}\u{62a}",
      "Review live, scheduled, and closed auctions.",
      "\u{645}\u{631}\u{627}\u{62c}\u{639}\u{629} \u{627}\u{644}\u{645}\u{632}\u{627}\u{62f}\u{627}\u{62a} \u{627}\u{644}\u{645}\u{628}\u{627}\u{634}\u{631}\u{629} \u{648}\u{627}\u{644}\u{645}\u{62c}\u{62f}\u{648}\u{644}\u{629} \u{648}\u{627}\u{644}\u{645}\u{63a}\u{644}\u{642}\u{629}.",
      "fa-solid fa-gavel", "/admin/auctions",
    )
    ∷ (
      "Users", "\u{627}\u{644}\u{645}\u{633}\u{62a}\u{62e}\u{62f}\u{645}\u{648}\u{646}",
      "Manage buyer and seller accounts.",
      "\u{625}\u{62f}\u{627}\u{631}\u{629} \u{62d}\u{633}\u{627}\u{628}\u{627}\u{62a} \u{627}\u{644}\u{645}\u{634}\u{62a}\u{631}\u{64a}\u{646} \u{648}\u{627}\u{644}\u{628}\u{627}\u{626}\u{639}\u{64a}\u{646}.",
      "fa-solid fa-users", "/admin/users",
    )
    ∷ []

abbrev pub sellers_section : List (String × String × String × String × String × String)
sellers_section =
    (
      "Add a New Car",
      "\u{625}\u{636}\u{627}\u{641}\u{629} \u{633}\u{64a}\u{627}\u{631}\u{629} \u{62c}\u{62f}\u{64a}\u{62f}\u{629}",
      "List a new vehicle for sale or auction.",
      "\u{625}\u{62f}\u{631}\u{627}\u{62c} \u{645}\u{631}\u{643}\u{628}\u{629} \u{62c}\u{62f}\u{64a}\u{62f}\u{629} \u{644}\u{644}\u{628}\u{64a}\u{639} \u{623}\u{648} \u{627}\u{644}\u{645}\u{632}\u{627}\u{62f}.",
      "fa-solid fa-car", "/admin/sellers/add-a-new-car",
    )
    ∷ (
      "My Vehicles", "\u{645}\u{631}\u{643}\u{628}\u{627}\u{62a}\u{64a}",
      "View and manage all vehicles you've listed.",
      "\u{639}\u{631}\u{636} \u{648}\u{625}\u{62f}\u{627}\u{631}\u{629} \u{62c}\u{645}\u{64a}\u{639} \u{627}\u{644}\u{645}\u{631}\u{643}\u{628}\u{627}\u{62a} \u{627}\u{644}\u{62a}\u{64a} \u{623}\u{62f}\u{631}\u{62c}\u{62a}\u{647}\u{627}.",
      "fa-solid fa-car-side", "/admin/sellers/my-vehicles",
    )
    ∷ (
      "My Received Vehicles",
      "\u{627}\u{644}\u{645}\u{631}\u{643}\u{628}\u{627}\u{62a} \u{627}\u{644}\u{645}\u{633}\u{62a}\u{644}\u{645}\u{629}",
      "Vehicles received and pending processing.",
      "\u{627}\u{644}\u{645}\u{631}\u{643}\u{628}\u{627}\u{62a} \u{627}\u{644}\u{645}\u{633}\u{62a}\u{644}\u{645}\u{629} \u{648}\u{627}\u{644}\u{645}\u{639}\u{644}\u{642}\u{629} \u{642}\u{64a}\u{62f} \u{627}\u{644}\u{645}\u{639}\u{627}\u{644}\u{62c}\u{629}.",
      "fa-solid fa-truck-ramp-box", "/admin/sellers/my-received-vehicles",
    )
    ∷ (
      "Active Auctions",
      "\u{627}\u{644}\u{645}\u{632}\u{627}\u{62f}\u{627}\u{62a} \u{627}\u{644}\u{646}\u{634}\u{637}\u{629}",
      "Auctions currently open for bidding.",
      "\u{627}\u{644}\u{645}\u{632}\u{627}\u{62f}\u{627}\u{62a} \u{627}\u{644}\u{645}\u{641}\u{62a}\u{648}\u{62d}\u{629} \u{62d}\u{627}\u{644}\u{64a}ً\u{627} \u{644}\u{644}\u{645}\u{632}\u{627}\u{64a}\u{62f}\u{629}.",
      "fa-solid fa-gavel", "/admin/sellers/active-auctions",
    )
    ∷ (
      "Sold Undelivered",
      "\u{645}\u{628}\u{627}\u{639}\u{629} \u{648}\u{63a}\u{64a}\u{631} \u{645}\u{633}\u{644}\u{645}\u{629}",
      "Sold vehicles awaiting delivery.",
      "\u{627}\u{644}\u{645}\u{631}\u{643}\u{628}\u{627}\u{62a} \u{627}\u{644}\u{645}\u{628}\u{627}\u{639}\u{629} \u{628}\u{627}\u{646}\u{62a}\u{638}\u{627}\u{631} \u{627}\u{644}\u{62a}\u{633}\u{644}\u{64a}\u{645}.",
      "fa-solid fa-box-open", "/admin/sellers/sold-undelivered",
    )
    ∷ (
      "Unsold Vehicles Undelivered",
      "\u{63a}\u{64a}\u{631} \u{645}\u{628}\u{627}\u{639}\u{629} \u{648}\u{63a}\u{64a}\u{631} \u{645}\u{633}\u{644}\u{645}\u{629}",
      "Unsold vehicles still awaiting return delivery.",
      "\u{627}\u{644}\u{645}\u{631}\u{643}\u{628}\u{627}\u{62a} \u{63a}\u{64a}\u{631} \u{627}\u{644}\u{645}\u{628}\u{627}\u{639}\u{629} \u{627}\u{644}\u{62a}\u{64a} \u{644}\u{627} \u{62a}\u{632}\u{627}\u{644} \u{628}\u{627}\u{646}\u{62a}\u{638}\u{627}\u{631} \u{625}\u{639}\u{627}\u{62f}\u{629} \u{627}\u{644}\u{62a}\u{633}\u{644}\u{64a}\u{645}.",
      "fa-solid fa-triangle-exclamation", "/admin/sellers/unsold-vehicles-undelivered",
    )
    ∷ (
      "My Invoices", "\u{641}\u{648}\u{627}\u{62a}\u{64a}\u{631}\u{64a}",
      "View invoices issued to your account.",
      "\u{639}\u{631}\u{636} \u{627}\u{644}\u{641}\u{648}\u{627}\u{62a}\u{64a}\u{631} \u{627}\u{644}\u{635}\u{627}\u{62f}\u{631}\u{629} \u{644}\u{62d}\u{633}\u{627}\u{628}\u{643}.",
      "fa-solid fa-file-invoice", "/admin/sellers/my-invoices",
    )
    ∷ (
      "My Payments", "\u{645}\u{62f}\u{641}\u{648}\u{639}\u{627}\u{62a}\u{64a}",
      "Track payments received and outstanding.",
      "\u{62a}\u{62a}\u{628}\u{639} \u{627}\u{644}\u{645}\u{62f}\u{641}\u{648}\u{639}\u{627}\u{62a} \u{627}\u{644}\u{645}\u{633}\u{62a}\u{644}\u{645}\u{629} \u{648}\u{627}\u{644}\u{645}\u{633}\u{62a}\u{62d}\u{642}\u{629}.",
      "fa-solid fa-wallet", "/admin/sellers/my-payments",
    )
    ∷ (
      "Requested Services",
      "\u{627}\u{644}\u{62e}\u{62f}\u{645}\u{627}\u{62a} \u{627}\u{644}\u{645}\u{637}\u{644}\u{648}\u{628}\u{629}",
      "Services you've requested for your vehicles.",
      "\u{627}\u{644}\u{62e}\u{62f}\u{645}\u{627}\u{62a} \u{627}\u{644}\u{62a}\u{64a} \u{637}\u{644}\u{628}\u{62a}\u{647}\u{627} \u{644}\u{645}\u{631}\u{643}\u{628}\u{627}\u{62a}\u{643}.",
      "fa-solid fa-clipboard-list", "/admin/sellers/requested-services",
    )
    ∷ (
      "Completed Requests",
      "\u{627}\u{644}\u{637}\u{644}\u{628}\u{627}\u{62a} \u{627}\u{644}\u{645}\u{643}\u{62a}\u{645}\u{644}\u{629}",
      "Service requests that have been completed.",
      "\u{637}\u{644}\u{628}\u{627}\u{62a} \u{627}\u{644}\u{62e}\u{62f}\u{645}\u{629} \u{627}\u{644}\u{62a}\u{64a} \u{62a}\u{645} \u{625}\u{646}\u{62c}\u{627}\u{632}\u{647}\u{627}.",
      "fa-solid fa-circle-check", "/admin/sellers/completed-requests",
    )
    ∷ (
      "Unapproved Vehicle",
      "\u{645}\u{631}\u{643}\u{628}\u{629} \u{63a}\u{64a}\u{631} \u{645}\u{639}\u{62a}\u{645}\u{62f}\u{629}",
      "Vehicles pending approval before listing.",
      "\u{627}\u{644}\u{645}\u{631}\u{643}\u{628}\u{627}\u{62a} \u{628}\u{627}\u{646}\u{62a}\u{638}\u{627}\u{631} \u{627}\u{644}\u{645}\u{648}\u{627}\u{641}\u{642}\u{629} \u{642}\u{628}\u{644} \u{627}\u{644}\u{625}\u{62f}\u{631}\u{627}\u{62c}.",
      "fa-solid fa-car-burst", "/admin/sellers/unapproved-vehicle",
    )
    ∷ []

abbrev pub dashboard_cards : List (String × String × String × String × String × String)
dashboard_cards =
    (
      "Location List",
      "\u{642}\u{627}\u{626}\u{645}\u{629} \u{627}\u{644}\u{645}\u{648}\u{627}\u{642}\u{639}",
      "Manage branch and yard locations.",
      "\u{625}\u{62f}\u{627}\u{631}\u{629} \u{645}\u{648}\u{627}\u{642}\u{639} \u{627}\u{644}\u{641}\u{631}\u{648}\u{639} \u{648}\u{627}\u{644}\u{633}\u{627}\u{62d}\u{627}\u{62a}.",
      "fa-solid fa-location-dot", "/admin/dashboard/location-list",
    )
    ∷ (
      "Services List",
      "\u{642}\u{627}\u{626}\u{645}\u{629} \u{627}\u{644}\u{62e}\u{62f}\u{645}\u{627}\u{62a}",
      "Manage the value-added services offered to sellers.",
      "\u{625}\u{62f}\u{627}\u{631}\u{629} \u{627}\u{644}\u{62e}\u{62f}\u{645}\u{627}\u{62a} \u{630}\u{627}\u{62a} \u{627}\u{644}\u{642}\u{64a}\u{645}\u{629} \u{627}\u{644}\u{645}\u{636}\u{627}\u{641}\u{629} \u{627}\u{644}\u{645}\u{642}\u{62f}\u{645}\u{629} \u{644}\u{644}\u{628}\u{627}\u{626}\u{639}\u{64a}\u{646}.",
      "fa-solid fa-hand-holding-dollar", "/admin/dashboard/services-list",
    )
    ∷ (
      "Message Templates",
      "\u{642}\u{648}\u{627}\u{644}\u{628} \u{627}\u{644}\u{631}\u{633}\u{627}\u{626}\u{644}",
      "Manage notification and email message templates.",
      "\u{625}\u{62f}\u{627}\u{631}\u{629} \u{642}\u{648}\u{627}\u{644}\u{628} \u{631}\u{633}\u{627}\u{626}\u{644} \u{627}\u{644}\u{625}\u{634}\u{639}\u{627}\u{631}\u{627}\u{62a} \u{648}\u{627}\u{644}\u{628}\u{631}\u{64a}\u{62f} \u{627}\u{644}\u{625}\u{644}\u{643}\u{62a}\u{631}\u{648}\u{646}\u{64a}.",
      "fa-solid fa-comment-dots", "/admin/dashboard/message-templates",
    )
    ∷ (
      "Auction Groups",
      "\u{645}\u{62c}\u{645}\u{648}\u{639}\u{627}\u{62a} \u{627}\u{644}\u{645}\u{632}\u{627}\u{62f}\u{627}\u{62a}",
      "Manage groupings used to organize auctions.",
      "\u{625}\u{62f}\u{627}\u{631}\u{629} \u{627}\u{644}\u{62a}\u{62c}\u{645}\u{64a}\u{639}\u{627}\u{62a} \u{627}\u{644}\u{645}\u{633}\u{62a}\u{62e}\u{62f}\u{645}\u{629} \u{644}\u{62a}\u{646}\u{638}\u{64a}\u{645} \u{627}\u{644}\u{645}\u{632}\u{627}\u{62f}\u{627}\u{62a}.",
      "fa-solid fa-layer-group", "/admin/dashboard/auction-groups",
    )
    ∷ (
      "Inspection Packages",
      "\u{628}\u{627}\u{642}\u{627}\u{62a} \u{627}\u{644}\u{641}\u{62d}\u{635}",
      "Manage vehicle inspection package offerings.",
      "\u{625}\u{62f}\u{627}\u{631}\u{629} \u{628}\u{627}\u{642}\u{627}\u{62a} \u{641}\u{62d}\u{635} \u{627}\u{644}\u{645}\u{631}\u{643}\u{628}\u{627}\u{62a} \u{627}\u{644}\u{645}\u{642}\u{62f}\u{645}\u{629}.",
      "fa-solid fa-clipboard-check", "/admin/dashboard/inspection-packages",
    )
    ∷ (
      "Complaint Details",
      "\u{62a}\u{641}\u{627}\u{635}\u{64a}\u{644} \u{627}\u{644}\u{634}\u{643}\u{627}\u{648}\u{649}",
      "Review and manage submitted complaints.",
      "\u{645}\u{631}\u{627}\u{62c}\u{639}\u{629} \u{648}\u{625}\u{62f}\u{627}\u{631}\u{629} \u{627}\u{644}\u{634}\u{643}\u{627}\u{648}\u{649} \u{627}\u{644}\u{645}\u{642}\u{62f}\u{645}\u{629}.",
      "fa-solid fa-triangle-exclamation", "/admin/dashboard/complaint-details",
    )
    ∷ []
