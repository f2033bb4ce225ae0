-- ===== src/Db/Rows.antt =====
-- What gorm documents of the table of relations and of the views, as hypotheses.
use axis_chat_server.Prelude.{
  ℕ, ◌≡◌, Bool, true, false, List, [], ◌∷◌, ◌++◌, some, take, drop, Text, if◌then◌else◌,
}
use axis_chat_server.Db.{Gorm, View, TRelation, row, text_lt}

-- the rows that a condition selects
abbrev pub where_ : {Row : Type 0} → (Row → Bool) → List Row → List Row
where_ test [] = []
where_ test (r ∷ rows) = let rest = where_ test rows in if test r then r ∷ rest else rest

-- Find gives the rows that the condition selects, First the first of them, and Create adds a row with
-- an id of its own, or changes nothing.
pub record Relations (D : Type 0) (gorm : Gorm D) : Type 0 where
  pub rows : D → List TRelation
  pub find_rows :
      (p : TRelation → Bool) (d : D) (l : List TRelation)
      → gorm.relations.find p d ≡ some l
      → l ≡ where_ p (rows d)
  pub first_row :
      (p : TRelation → Bool) (d : D) (r : TRelation)
      → gorm.relations.first p d ≡ row r
      → (rest : List TRelation) × (where_ p (rows d) ≡ r ∷ rest)
  pub create_row :
      (r : TRelation) (d : D) (made : TRelation)
      → (gorm.relations.create r d).0 ≡ some made
      → ((id : ℕ) × (made ≡ record r { id = id }))
        × (rows (gorm.relations.create r d).1 ≡ rows d ++ made ∷ [])

-- Each row is newer than those behind it.
abbrev pub Below : {Row : Type 0} → (Row → Text) → Row → List Row → Type 0
Below snow_id x [] = Unit
Below snow_id x (y ∷ ys) =
    (text_lt (snow_id y) (snow_id x) ≡ true)
    × (text_lt (snow_id x) (snow_id y) ≡ false)
    × Below snow_id x ys

abbrev pub Newest : {Row : Type 0} → (Row → Text) → List Row → Type 0
Newest snow_id [] = Unit
Newest snow_id (x ∷ xs) = Below snow_id x xs × Newest snow_id xs

-- A page is a part of the rows that the condition selects, the newest first. No two have one snow id.
pub record Pages (D Row : Type 0) (view : View D Row) (snow_id : Row → Text) : Type 0 where
  pub newest : (Row → Bool) → D → List Row
  pub in_order : (p : Row → Bool) (d : D) → Newest snow_id (newest p d)
  pub page_rows :
      (p : Row → Bool) (limit offset : ℕ) (d : D) (l : List Row)
      → view.find_page p limit offset d ≡ some l
      → l ≡ take limit (drop offset (newest p d))
