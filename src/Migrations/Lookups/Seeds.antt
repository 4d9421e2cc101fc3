-- ===== src/Migrations/Lookups/Seeds.antt =====
-- alembic/versions/0019: the seeded branches, colours, key options, fuel types, bidding models, years
-- and makes, and the models of some makes.
use awa_platform.Prelude.{ℕ, String, List, [], ◌∷◌}

abbrev pub branch_seeds : List (String × String)
branch_seeds =
    ("Abu Dhabi", "\u{623}\u{628}\u{648} \u{638}\u{628}\u{64a}")
    ∷ ("Sharjah", "\u{627}\u{644}\u{634}\u{627}\u{631}\u{642}\u{629}")
    ∷ []

abbrev pub color_seeds : List (String × String)
color_seeds =
    ("-", "-")
    ∷ ("Beige", "\u{628}\u{64a}\u{62c}")
    ∷ ("Black", "\u{623}\u{633}\u{648}\u{62f}")
    ∷ ("Blue", "\u{623}\u{632}\u{631}\u{642}")
    ∷ ("Brown", "\u{628}\u{646}\u{64a}")
    ∷ ("Burgundy", "\u{639}\u{646}\u{627}\u{628}\u{64a}")
    ∷ ("Dark blue", "\u{623}\u{632}\u{631}\u{642} \u{62f}\u{627}\u{643}\u{646}")
    ∷ ("Golden", "\u{630}\u{647}\u{628}\u{64a}")
    ∷ ("Gray Color", "Gray Color")
    ∷ ("Green", "\u{623}\u{62e}\u{636}\u{631}")
    ∷ ("Grey", "\u{631}\u{645}\u{627}\u{62f}\u{64a}")
    ∷ ("LEADEN", "LEADEN")
    ∷ ("Maroon", "\u{62e}\u{645}\u{631}\u{64a}")
    ∷ ("ORANGE", "\u{628}\u{631}\u{62a}\u{642}\u{627}\u{644}\u{64a}")
    ∷ ("Other Color", "\u{644}\u{648}\u{646} \u{622}\u{62e}\u{631}")
    ∷ ("pearly white", "\u{623}\u{628}\u{64a}\u{636} \u{644}\u{624}\u{644}\u{624}\u{64a}")
    ∷ ("Pink", "\u{648}\u{631}\u{62f}\u{64a}")
    ∷ ("Purple", "\u{628}\u{646}\u{641}\u{633}\u{62c}\u{64a}")
    ∷ ("Red", "\u{623}\u{62d}\u{645}\u{631}")
    ∷ ("Silver", "\u{641}\u{636}\u{64a}")
    ∷ ("Tan", "Tan")
    ∷ ("Teal", "Teal")
    ∷ ("White", "\u{623}\u{628}\u{64a}\u{636}")
    ∷ ("White Pink", "White Pink")
    ∷ ("Yellow", "\u{623}\u{635}\u{641}\u{631}")
    ∷ []

abbrev pub key_option_seeds : List (String × String)
key_option_seeds =
    ("1 Key", "\u{645}\u{641}\u{62a}\u{627}\u{62d} \u{648}\u{627}\u{62d}\u{62f}")
    ∷ ("2 Keys", "\u{645}\u{641}\u{62a}\u{627}\u{62d}\u{627}\u{646}")
    ∷ ("3 Keys", "3 \u{645}\u{641}\u{627}\u{62a}\u{64a}\u{62d}")
    ∷ []

abbrev pub fuel_type_seeds : List (String × String)
fuel_type_seeds =
    ("Petrol", "\u{628}\u{646}\u{632}\u{64a}\u{646}")
    ∷ ("Diesel", "\u{62f}\u{64a}\u{632}\u{644}")
    ∷ ("Hybrid", "\u{647}\u{62c}\u{64a}\u{646}")
    ∷ ("Electric", "\u{643}\u{647}\u{631}\u{628}\u{627}\u{626}\u{64a}")
    ∷ (
      "CNG",
      "\u{63a}\u{627}\u{632} \u{637}\u{628}\u{64a}\u{639}\u{64a} \u{645}\u{636}\u{63a}\u{648}\u{637}",
    )
    ∷ []

abbrev pub bidding_model_seeds : List (String × String)
bidding_model_seeds =
    ("Regular auction", "Regular auction")
    ∷ ("Offline auction", "Offline auction")
    ∷ ("Hybrid auction", "Hybrid auction")
    ∷ (
      "Silent auction",
      "\u{627}\u{644}\u{645}\u{632}\u{627}\u{62f} \u{627}\u{644}\u{635}\u{627}\u{645}\u{62a}",
    )
    ∷ (
      "Direct auction",
      "\u{627}\u{644}\u{639}\u{645}\u{644} \u{627}\u{644}\u{645}\u{628}\u{627}\u{634}\u{631}",
    )
    ∷ []

abbrev pub year_seeds : List ℕ
year_seeds =
    2025 ∷ 2024 ∷ 2023 ∷ 2022 ∷ 2021 ∷ 2020 ∷ 2019 ∷ 2018 ∷ 2017 ∷ 2016 ∷ 2015 ∷ 2014 ∷ 2013 ∷ 2012
    ∷ 2011 ∷ 2010 ∷ 2009 ∷ 2008 ∷ 2007 ∷ 2006 ∷ 2005 ∷ 2004 ∷ 2003 ∷ 2002 ∷ 2001 ∷ 2000 ∷ 1999
    ∷ 1998 ∷ 1997 ∷ 1996 ∷ 1995 ∷ 1994 ∷ 1993 ∷ 1992 ∷ 1991 ∷ 1990 ∷ 1989 ∷ 1988 ∷ 1987 ∷ 1986
    ∷ 1985 ∷ 1984 ∷ 1983 ∷ 1982 ∷ 1981 ∷ 1980 ∷ 1979 ∷ 1978 ∷ 1977 ∷ 1976 ∷ 1975 ∷ 1974 ∷ 1973
    ∷ 1972 ∷ 1971 ∷ 1970 ∷ 1969 ∷ 1968 ∷ 1967 ∷ 1966 ∷ 1965 ∷ 1964 ∷ 1963 ∷ 1962 ∷ 1961 ∷ 1960
    ∷ 1958 ∷ 1954 ∷ 1950 ∷ 1948 ∷ 1927 ∷ []

abbrev pub make_seeds : List String
make_seeds =
    "Acura" ∷ "Alfa Romeo" ∷ "Aston Martin" ∷ "Audi" ∷ "Bentley" ∷ "Bizzarrini" ∷ "BMW" ∷ "Bufori"
    ∷ "Bugatti" ∷ "Buick" ∷ "Cadillac" ∷ "Chevrolet" ∷ "Chrysler" ∷ "Citroen" ∷ "Scrap" ∷ "Daewoo"
    ∷ "Daihatsu" ∷ "DeLorean" ∷ "Dodge" ∷ "Ferrari" ∷ "Fiat" ∷ "Ford" ∷ "GMC" ∷ "Honda" ∷ "Hummer"
    ∷ "Hyundai" ∷ "Infiniti" ∷ "Isuzu" ∷ "Jaguar" ∷ "Jeep" ∷ "Kia" ∷ "Lada" ∷ "Lamborghini"
    ∷ "Lancia" ∷ "Land Rover" ∷ "Lexus" ∷ "Lincoln" ∷ "Lotus" ∷ "Maserati" ∷ "Maybach" ∷ "Mazda"
    ∷ "McLaren" ∷ "Mercedes-Benz" ∷ "Mercury" ∷ "MINI" ∷ "Mitsubishi" ∷ "Nissan" ∷ "Opel" ∷ "Oullim"
    ∷ "Peugeot" ∷ "Pontiac" ∷ "Porsche" ∷ "Proton" ∷ "Renault" ∷ "Rolls Royce" ∷ "Range Rover"
    ∷ "Saab" ∷ "25 Seats" ∷ "Skoda" ∷ "Smart" ∷ "Speranza" ∷ "Ssang Yong" ∷ "Subaru" ∷ "Suzuki"
    ∷ "TATA" ∷ "Toyota" ∷ "Volkswagen" ∷ "Volvo" ∷ "Wiesmann" ∷ "Other Make" ∷ []

abbrev pub models_by_make : List (String × List (String × String))
models_by_make =
    (
      "Toyota",
      ("Camry", "\u{643}\u{627}\u{645}\u{631}\u{64a}")
          ∷ ("Corolla", "\u{643}\u{648}\u{631}\u{648}\u{644}\u{627}")
          ∷ ("Land Cruiser", "\u{644}\u{627}\u{646}\u{62f} \u{643}\u{631}\u{648}\u{632}\u{631}")
          ∷ ("Fortuner", "\u{641}\u{648}\u{631}\u{62a}\u{634}\u{646}\u{631}")
          ∷ ("Hilux", "\u{647}\u{627}\u{64a}\u{644}\u{643}\u{633}")
          ∷ ("Yaris", "\u{64a}\u{627}\u{631}\u{64a}\u{633}")
          ∷ [],
    )
    ∷ (
      "Nissan",
      ("Altima", "\u{627}\u{644}\u{62a}\u{64a}\u{645}\u{627}")
          ∷ ("Patrol", "\u{628}\u{627}\u{62a}\u{631}\u{648}\u{644}")
          ∷ ("Sunny", "\u{635}\u{646}\u{64a}")
          ∷ ("X-Trail", "\u{627}\u{643}\u{633} \u{62a}\u{631}\u{64a}\u{644}")
          ∷ ("Maxima", "\u{645}\u{627}\u{643}\u{633}\u{64a}\u{645}\u{627}")
          ∷ [],
    )
    ∷ (
      "Honda",
      ("Accord", "\u{623}\u{643}\u{648}\u{631}\u{62f}")
          ∷ ("Civic", "\u{633}\u{64a}\u{641}\u{64a}\u{643}")
          ∷ ("CR-V", "\u{633}\u{64a} \u{622}\u{631}-\u{641}\u{64a}")
          ∷ [],
    )
    ∷ (
      "Mercedes-Benz",
      ("C-Class", "\u{627}\u{644}\u{641}\u{626}\u{629} C")
          ∷ ("E-Class", "\u{627}\u{644}\u{641}\u{626}\u{629} E")
          ∷ ("S-Class", "\u{627}\u{644}\u{641}\u{626}\u{629} S")
          ∷ ("GLE", "\u{62c}\u{64a} \u{625}\u{644} \u{625}\u{64a}")
          ∷ [],
    )
    ∷ (
      "BMW",
      ("3 Series", "\u{627}\u{644}\u{641}\u{626}\u{629} 3")
          ∷ ("5 Series", "\u{627}\u{644}\u{641}\u{626}\u{629} 5")
          ∷ ("X5", "\u{625}\u{643}\u{633} 5")
          ∷ [],
    )
    ∷ (
      "Ford",
      ("Explorer", "\u{625}\u{643}\u{633}\u{628}\u{644}\u{648}\u{631}\u{631}")
          ∷ ("F-150", "\u{625}\u{641}-150")
          ∷ ("Mustang", "\u{645}\u{648}\u{633}\u{62a}\u{646}\u{62c}")
          ∷ [],
    )
    ∷ (
      "Chevrolet",
      ("Tahoe", "\u{62a}\u{627}\u{647}\u{648}")
          ∷ ("Malibu", "\u{645}\u{627}\u{644}\u{64a}\u{628}\u{648}")
          ∷ ("Camaro", "\u{643}\u{627}\u{645}\u{627}\u{631}\u{648}")
          ∷ [],
    )
    ∷ (
      "Hyundai",
      ("Elantra", "\u{625}\u{644}\u{646}\u{62a}\u{631}\u{627}")
          ∷ ("Sonata", "\u{633}\u{648}\u{646}\u{627}\u{62a}\u{627}")
          ∷ ("Tucson", "\u{62a}\u{648}\u{633}\u{627}\u{646}")
          ∷ [],
    )
    ∷ (
      "Kia",
      ("Sportage", "\u{633}\u{628}\u{648}\u{631}\u{62a}\u{627}\u{62c}")
          ∷ ("Sorento", "\u{633}\u{648}\u{631}\u{64a}\u{646}\u{62a}\u{648}")
          ∷ ("Optima", "\u{623}\u{648}\u{628}\u{62a}\u{64a}\u{645}\u{627}")
          ∷ [],
    )
    ∷ (
      "Lexus",
      ("ES", "\u{625}\u{64a} \u{625}\u{633}")
          ∷ ("RX", "\u{622}\u{631} \u{625}\u{643}\u{633}")
          ∷ ("LX", "\u{625}\u{644} \u{625}\u{643}\u{633}")
          ∷ [],
    )
    ∷ (
      "Mitsubishi",
      ("Pajero", "\u{628}\u{627}\u{62c}\u{64a}\u{631}\u{648}")
          ∷ ("Lancer", "\u{644}\u{627}\u{646}\u{633}\u{631}")
          ∷ ("Attrage", "\u{623}\u{62a}\u{631}\u{627}\u{62c}")
          ∷ [],
    )
    ∷ (
      "Land Rover",
      ("Range Rover", "\u{631}\u{64a}\u{646}\u{62c} \u{631}\u{648}\u{641}\u{631}")
          ∷ ("Discovery", "\u{62f}\u{64a}\u{633}\u{643}\u{641}\u{631}\u{64a}")
          ∷ ("Defender", "\u{62f}\u{64a}\u{641}\u{646}\u{62f}\u{631}")
          ∷ [],
    )
    ∷ (
      "Audi",
      ("A4", "\u{625}\u{64a}\u{647} 4")
          ∷ ("A6", "\u{625}\u{64a}\u{647} 6")
          ∷ ("Q7", "\u{643}\u{64a}\u{648} 7")
          ∷ [],
    )
    ∷ (
      "Volkswagen",
      ("Passat", "\u{628}\u{627}\u{633}\u{627}\u{62a}")
          ∷ ("Tiguan", "\u{62a}\u{64a}\u{63a}\u{648}\u{627}\u{646}")
          ∷ ("Golf", "\u{62c}\u{648}\u{644}\u{641}")
          ∷ [],
    )
    ∷ (
      "Mazda",
      ("CX-5", "\u{633}\u{64a} \u{625}\u{643}\u{633}-5")
          ∷ ("Mazda 6", "\u{645}\u{627}\u{632}\u{62f}\u{627} 6")
          ∷ ("Mazda 3", "\u{645}\u{627}\u{632}\u{62f}\u{627} 3")
          ∷ [],
    )
    ∷ []
