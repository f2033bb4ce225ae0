-- ===== src/Db/Pages.antt =====
-- The pages of messages: the newest ones first by page, the oldest ones first within a page.
use mathlib.Core.List.{reverse, reverse-append}
use axis_chat_server.Prelude.{
  ℕ, suc, zero, ◌-◌, ◌*◌, ◌≤◌, ◌≡◌, refl, Bool, false, some, List, [], ◌∷◌, ◌++◌, length,
  length-append, take, drop, Text, ap, sym, ◌∙◌, arith,
}
use axis_chat_server.Db.{
  Gorm, View, VFriendMessage, VGroupMessage, text_lt, insert_by, sort_slice, found_rows, page_of,
  between, in_group, query_friend_message_by_page, query_group_message_by_page,
}
use axis_chat_server.Db.Rows.{Pages, Below, Newest}

-- a page, by its number and size, of rows that stand with the newest first
abbrev pub page : {Row : Type 0} → ℕ → ℕ → List Row → List Row
page current page_size l = reverse (take page_size (drop ((current - 1) * page_size) l))

module _ {Row : Type 0} (snow_id : Row → Text) where
  -- no row of the list is newer than `x`
  abbrev NotBefore : Row → List Row → Type 0
  NotBefore x [] = Unit
  NotBefore x (y ∷ ys) = (text_lt (snow_id x) (snow_id y) ≡ false) × NotBefore x ys

  NotBefore-append :
      (x : Row) (ys zs : List Row) → NotBefore x ys → NotBefore x zs → NotBefore x (ys ++ zs)
  NotBefore-append x [] zs a b = b
  NotBefore-append x (y ∷ ys) zs a b = (a.0, NotBefore-append x ys zs a.1 b)

  NotBefore-reverse : (x : Row) (ys : List Row) → Below snow_id x ys → NotBefore x (reverse ys)
  NotBefore-reverse x [] b = tt
  NotBefore-reverse x (y ∷ ys) b =
      rw (reverse-append (y ∷ []) ys)
        (NotBefore-append x (reverse ys) (y ∷ []) (NotBefore-reverse x ys b.2) (b.1, tt))

  insert_last : (x : Row) (ys : List Row) → NotBefore x ys → insert_by snow_id x ys ≡ ys ++ x ∷ []
  insert_last x [] b = refl
  insert_last x (y ∷ ys) b = rw b.0 (ap (λ l. y ∷ l) (insert_last x ys b.1))

  -- Sorting rows that stand with the newest first turns them round.
  pub sort_slice-Newest : (l : List Row) → Newest snow_id l → sort_slice snow_id l ≡ reverse l
  unfolding sort_slice
  sort_slice-Newest [] n = refl
  sort_slice-Newest (x ∷ xs) n =
      ap (insert_by snow_id x) (sort_slice-Newest xs n.1)
      ∙ insert_last x (reverse xs) (NotBefore-reverse x xs n.0)
      ∙ sym (reverse-append (x ∷ []) xs)

  drop-Newest : (k : ℕ) (l : List Row) → Newest snow_id l → Newest snow_id (drop k l)
  drop-Newest zero l n = n
  drop-Newest (suc k) [] n = tt
  drop-Newest (suc k) (x ∷ xs) n = drop-Newest k xs n.1

  take-Below : (k : ℕ) (x : Row) (l : List Row) → Below snow_id x l → Below snow_id x (take k l)
  take-Below zero x l b = tt
  take-Below (suc k) x [] b = tt
  take-Below (suc k) x (y ∷ ys) b = (b.0, b.1, take-Below k x ys b.2)

  take-Newest : (k : ℕ) (l : List Row) → Newest snow_id l → Newest snow_id (take k l)
  take-Newest zero l n = tt
  take-Newest (suc k) [] n = tt
  take-Newest (suc k) (x ∷ xs) n = (take-Below k x xs n.0, take-Newest k xs n.1)

  length-take_le : (k : ℕ) (l : List Row) → length (take k l) ≤ k
  length-take_le zero l = omega arith
  length-take_le (suc k) [] = omega arith
  length-take_le (suc k) (x ∷ xs) = omega (arith, length-take_le k xs)

  length-reverse_lem : (l : List Row) → length (reverse l) ≡ length l
  length-reverse_lem [] = refl
  length-reverse_lem (x ∷ xs) =
      ap length (reverse-append (x ∷ []) xs)
      ∙ length-append (reverse xs) (x ∷ [])
      ∙ omega (arith, length-reverse_lem xs)

  page-bounds :
      (current page_size : ℕ) (l : List Row) → length (page current page_size l) ≤ page_size
  page-bounds current page_size l = omega (
    arith,
    length-reverse_lem (take page_size (drop ((current - 1) * page_size) l)),
    length-take_le page_size (drop ((current - 1) * page_size) l),
  )

-- A page that is read and sorted.
sorted_page :
    {D Row : Type 0} (view : View D Row) (snow_id : Row → Text) (db : Pages D Row view snow_id)
    (p : Row → Bool) (current page_size : ℕ) (d : D) (l : List Row)
    → view.find_page p page_size ((current - 1) * page_size) d ≡ some l
    → (sort_slice snow_id (found_rows (view.find_page p page_size ((current - 1) * page_size) d))
        ≡ page current page_size (db.newest p d))
      × (length (
            sort_slice snow_id
              (found_rows (view.find_page p page_size ((current - 1) * page_size) d)))
          ≤ page_size)
sorted_page view snow_id db p current page_size d l e =
    let rows = db.newest p d in
    let start = (current - 1) * page_size in
    let sorted : sort_slice snow_id (found_rows (view.find_page p page_size start d))
        ≡ page current page_size rows =
      ap (λ o. sort_slice snow_id (found_rows o)) e
      ∙ ap (sort_slice snow_id) (db.page_rows p page_size start d l e)
      ∙ sort_slice-Newest snow_id (take page_size (drop start rows)) (
          take-Newest snow_id page_size (drop start rows)
            (drop-Newest snow_id start rows (db.in_order p d))) in
    (sorted, rw sorted (page-bounds snow_id current page_size rows))

-- A page of the private messages of two users has at most as many messages as a page holds, and they
-- are those behind the pages before it, the newest being on page 1, with the oldest of them first; when a
-- number is not positive it is the first page of 16. The query is to succeed, and two messages have
-- different snow ids.
pub query_friend_message_by_page-page :
    {D : Type 0} (gorm : Gorm D) (db : Pages D VFriendMessage gorm.friend_messages (λ m. m.snow_id))
    (userid friend_id current page_size : ℕ) (d : D) (l : List VFriendMessage)
    → gorm.friend_messages.find_page
        (between userid friend_id)
        (page_of current page_size).1
        (((page_of current page_size).0 - 1) * (page_of current page_size).1)
        d
      ≡ some l
    → (query_friend_message_by_page gorm userid friend_id current page_size d
        ≡ page
            (page_of current page_size).0
            (page_of current page_size).1
            (db.newest (between userid friend_id) d))
      × (length (query_friend_message_by_page gorm userid friend_id current page_size d)
          ≤ (page_of current page_size).1)
unfolding query_friend_message_by_page
query_friend_message_by_page-page gorm db userid friend_id current page_size d l e =
    let (number, size) = page_of current page_size in
    sorted_page gorm.friend_messages (λ m. m.snow_id) db (between userid friend_id) number size d l
      e

-- The same of the messages of a group.
pub query_group_message_by_page-page :
    {D : Type 0} (gorm : Gorm D) (db : Pages D VGroupMessage gorm.group_messages (λ m. m.snow_id))
    (group_id current page_size : ℕ) (d : D) (l : List VGroupMessage)
    → gorm.group_messages.find_page
        (in_group group_id)
        (page_of current page_size).1
        (((page_of current page_size).0 - 1) * (page_of current page_size).1)
        d
      ≡ some l
    → (query_group_message_by_page gorm group_id current page_size d
        ≡ page
            (page_of current page_size).0
            (page_of current page_size).1
            (db.newest (in_group group_id) d))
      × (length (query_group_message_by_page gorm group_id current page_size d)
          ≤ (page_of current page_size).1)
unfolding query_group_message_by_page
query_group_message_by_page-page gorm db group_id current page_size d l e =
    let (number, size) = page_of current page_size in
    sorted_page gorm.group_messages (λ m. m.snow_id) db (in_group group_id) number size d l e
