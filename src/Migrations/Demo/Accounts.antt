-- ===== src/Migrations/Demo/Accounts.antt =====
-- alembic/versions/0031: two demo accounts for each role, with their address, primary role, name and
-- second role.
use awa_platform.Prelude.{String, Option, none, some, List, [], ◌∷◌}

abbrev pub demo_users : List (String × String × String × Option String)
demo_users =
    ("buyer1@gmail.com", "Buyer", "Buyer One", some "Seller")
    ∷ ("buyer2@gmail.com", "Buyer", "Buyer Two", none)
    ∷ ("seller1@gmail.com", "Seller", "Seller One", some "Buyer")
    ∷ ("seller2@gmail.com", "Seller", "Seller Two", none)
    ∷ ("admin1@gmail.com", "Admin", "Admin One", some "Buyer")
    ∷ ("admin2@gmail.com", "Admin", "Admin Two", none)
    ∷ ("accountant1@gmail.com", "Accountant", "Accountant One", none)
    ∷ ("accountant2@gmail.com", "Accountant", "Accountant Two", none)
    ∷ ("inspector1@gmail.com", "Inspector", "Inspector One", some "Seller")
    ∷ ("inspector2@gmail.com", "Inspector", "Inspector Two", none)
    ∷ ("manager1@gmail.com", "Manager", "Manager One", some "Buyer")
    ∷ ("manager2@gmail.com", "Manager", "Manager Two", none)
    ∷ ("operations1@gmail.com", "Operations", "Operations One", none)
    ∷ ("operations2@gmail.com", "Operations", "Operations Two", none)
    ∷ ("auctionshead1@gmail.com", "AuctionsHead", "AuctionsHead One", none)
    ∷ ("auctionshead2@gmail.com", "AuctionsHead", "AuctionsHead Two", none)
    ∷ []
