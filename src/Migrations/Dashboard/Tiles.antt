-- ===== src/Migrations/Dashboard/Tiles.antt =====
-- alembic/versions/0024 and 0025: the images and the icons of the cards of the sellers, and 0017: the
-- tiles of the vehicle status, with key, labels, icon, image and colour.
use awa_platform.Prelude.{String, Option, none, some, List, [], ◌∷◌}

abbrev pub seller_card_images : List (String × String)
seller_card_images =
    ("/admin/sellers/add-a-new-car", "add-new-car.svg")
    ∷ ("/admin/sellers/my-vehicles", "my-vehicles.svg")
    ∷ ("/admin/sellers/my-received-vehicles", "my-received-vehicles.svg")
    ∷ ("/admin/sellers/active-auctions", "liveauction.svg")
    ∷ ("/admin/sellers/sold-undelivered", "sold-vehicles.svg")
    ∷ ("/admin/sellers/unsold-vehicles-undelivered", "unsold-vehicles.svg")
    ∷ ("/admin/sellers/my-invoices", "my-invoices.svg")
    ∷ ("/admin/sellers/my-payments", "my-payments.svg")
    ∷ ("/admin/sellers/requested-services", "report.png")
    ∷ ("/admin/sellers/completed-requests", "completed-requests.svg")
    ∷ ("/admin/sellers/unapproved-vehicle", "under-approval.svg")
    ∷ []

abbrev pub seller_icon_classes : List (String × String)
seller_icon_classes =
    ("/admin/sellers/add-a-new-car", "fa-solid fa-car")
    ∷ ("/admin/sellers/my-vehicles", "fa-solid fa-car-side")
    ∷ ("/admin/sellers/my-received-vehicles", "fa-solid fa-truck-ramp-box")
    ∷ ("/admin/sellers/active-auctions", "fa-solid fa-gavel")
    ∷ ("/admin/sellers/sold-undelivered", "fa-solid fa-box-open")
    ∷ ("/admin/sellers/unsold-vehicles-undelivered", "fa-solid fa-triangle-exclamation")
    ∷ ("/admin/sellers/my-invoices", "fa-solid fa-file-invoice")
    ∷ ("/admin/sellers/my-payments", "fa-solid fa-wallet")
    ∷ ("/admin/sellers/requested-services", "fa-solid fa-clipboard-list")
    ∷ ("/admin/sellers/completed-requests", "fa-solid fa-circle-check")
    ∷ ("/admin/sellers/unapproved-vehicle", "fa-solid fa-car-burst")
    ∷ []

abbrev pub realtime_tiles :
    List (String × String × String × Option String × Option String × Option String)
realtime_tiles =
    (
      "in_yard_count",
      "In Yard",
      "\u{641}\u{64a} \u{627}\u{644}\u{633}\u{627}\u{62d}\u{629}",
      none,
      some "entrances 2.png",
      some "bg-primary",
    )
    ∷ (
      "in_inspection_count",
      "Inspection",
      "\u{627}\u{644}\u{641}\u{62d}\u{635}",
      none,
      some "Vector.png",
      some "bg-success",
    )
    ∷ (
      "in_washing_count",
      "Washing",
      "\u{627}\u{644}\u{63a}\u{633}\u{64a}\u{644}",
      none,
      some "car-wash.png",
      some "bg-danger",
    )
    ∷ (
      "in_live_auction_count",
      "Auction",
      "\u{627}\u{644}\u{645}\u{632}\u{627}\u{62f}",
      none,
      some "mingcute_auction-fill.svg",
      some "bg-dark",
    )
    ∷ (
      "in_seller_unapproved_count",
      "Pending Approval",
      "\u{628}\u{627}\u{646}\u{62a}\u{638}\u{627}\u{631} \u{627}\u{644}\u{645}\u{648}\u{627}\u{641}\u{642}\u{629}",
      none,
      some "streamline-sharp-color_time-lapse.png",
      some "bg-pending",
    )
    ∷ []

abbrev pub mtd_tiles :
    List (String × String × String × Option String × Option String × Option String)
mtd_tiles =
    (
      "vehicle_received",
      "Approved",
      "\u{62a}\u{645}\u{62a} \u{627}\u{644}\u{645}\u{648}\u{627}\u{641}\u{642}\u{629}",
      some "fa fa-check",
      none,
      some "bg-success",
    )
    ∷ (
      "internal_vehicle_received",
      "Delivered",
      "\u{62a}\u{645} \u{627}\u{644}\u{62a}\u{633}\u{644}\u{64a}\u{645}",
      some "fa fa-money-bill",
      none,
      some "bg-info",
    )
    ∷ (
      "total_auctions",
      "Paid",
      "\u{645}\u{62f}\u{641}\u{648}\u{639}",
      some "fa fa-car",
      none,
      some "bg-primary",
    )
    ∷ (
      "in_seller_approved_count",
      "Seller Approve",
      "\u{645}\u{648}\u{627}\u{641}\u{642}\u{629} \u{627}\u{644}\u{628}\u{627}\u{626}\u{639}",
      some "fa fa-exclamation",
      none,
      some "bg-warning",
    )
    ∷ (
      "is_buyer_paid",
      "Buyer Paid",
      "\u{62f}\u{641}\u{639} \u{627}\u{644}\u{645}\u{634}\u{62a}\u{631}\u{64a}",
      none,
      some "paid.png",
      none,
    )
    ∷ (
      "paid_not_delivered",
      "Pending Payment",
      "\u{627}\u{644}\u{62f}\u{641}\u{639} \u{645}\u{639}\u{644}\u{642}",
      none,
      some "pending payments.png",
      none,
    )
    ∷ (
      "delivered",
      "Paid Delivered",
      "\u{62a}\u{645} \u{627}\u{644}\u{62f}\u{641}\u{639} \u{648}\u{627}\u{644}\u{62a}\u{633}\u{644}\u{64a}\u{645}",
      none,
      some "delivered.png",
      none,
    )
    ∷ []

abbrev pub payment_summary_tiles :
    List (String × String × String × Option String × Option String × Option String)
payment_summary_tiles =
    (
      "paid_awaiting_documents",
      "Paid - Awaiting Documents",
      "\u{645}\u{62f}\u{641}\u{648}\u{639} - \u{628}\u{627}\u{646}\u{62a}\u{638}\u{627}\u{631} \u{627}\u{644}\u{645}\u{633}\u{62a}\u{646}\u{62f}\u{627}\u{62a}",
      none,
      some "entrances 2.png",
      some "bg-primary",
    )
    ∷ (
      "paid_documents_ready_pending_deliver",
      "Paid - Documents Ready",
      "\u{645}\u{62f}\u{641}\u{648}\u{639} - \u{627}\u{644}\u{645}\u{633}\u{62a}\u{646}\u{62f}\u{627}\u{62a} \u{62c}\u{627}\u{647}\u{632}\u{629}",
      none,
      some "Vector.png",
      some "bg-success",
    )
    ∷ (
      "pending_buyer_payment",
      "Pending Buyer Payment",
      "\u{628}\u{627}\u{646}\u{62a}\u{638}\u{627}\u{631} \u{62f}\u{641}\u{639} \u{627}\u{644}\u{645}\u{634}\u{62a}\u{631}\u{64a}",
      none,
      some "car-wash.png",
      some "bg-danger",
    )
    ∷ (
      "pending_seller_payment",
      "Pending Seller Payment",
      "\u{628}\u{627}\u{646}\u{62a}\u{638}\u{627}\u{631} \u{62f}\u{641}\u{639} \u{627}\u{644}\u{628}\u{627}\u{626}\u{639}",
      none,
      some "car-wash.png",
      some "bg-danger",
    )
    ∷ []
