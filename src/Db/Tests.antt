-- ===== src/Db/Tests.antt =====
-- A database in memory: a table of relations, and two private messages.
use axis_chat_server.Prelude.{
  ℕ, ◌+◌, ◌≤◌, ◌≡◌, refl, Bool, Bool-cases, true, inl, inr, none, some, List, [], ◌∷◌, ◌++◌, take,
  drop, length, elem, Text, sym, ap,
}
use axis_chat_server.Common.Redis.{ok}
use axis_chat_server.Common.Redis.Tests.{Server, client, cluster_of, nothing}
use axis_chat_server.Logic.Data.{friend, Stored, World, Passwords}
use axis_chat_server.Logic.Session.{add_friend}
use axis_chat_server.Db.{
  Gorm, Table, View, TRelation, VFriendMessage, FirstRow, row, not_found, query_failed,
  is_friend_of, query_user_all_friend_id, query_friend_message_by_page, between, page_of, curd,
}
use axis_chat_server.Db.Rows.{where_, Relations, Pages, Newest}
use axis_chat_server.Db.Friends.{add_friend-friends}
use axis_chat_server.Db.Pages.{page, query_friend_message_by_page-page}

abbrev head_of : {Row : Type 0} → List Row → FirstRow Row
head_of [] = not_found
head_of (r ∷ rows) = row r

-- a table that is never read
abbrev pub no_table : {D Row : Type 0} → Table D Row
no_table = record { first = λ p d. query_failed; find = λ p d. none; create = λ r d. (none, d) }

abbrev relation_table : Table (List TRelation) TRelation
relation_table = record {
  first = λ p d. head_of (where_ p d);
  find = λ p d. some (where_ p d);
  create =
      λ r d. let made : TRelation = record r { id = length d + 1 } in (some made, d ++ made ∷ []);
}

abbrev letter : Text → VFriendMessage
letter snow_id = record {
  id = 1;
  belong = 1;
  userid = 1;
  friend_id = 2;
  content = [];
  message_type = [];
  friend_name = [];
  from_username = [];
  avatar = [];
  snow_id = snow_id;
}

-- the newest first
abbrev letters : List VFriendMessage
letters = letter (b'2' ∷ []) ∷ letter (b'1' ∷ []) ∷ []

abbrev gorm : Gorm (List TRelation)
gorm = record {
  users = no_table;
  groups = no_table;
  relations = relation_table;
  friend_messages = record {
    find_page = λ p limit offset d. some (take limit (drop offset (where_ p letters)));
  };
  group_messages = record { find_page = λ p limit offset d. none };
  update_password = λ u p d. (true, d);
  create_in_batches = λ m n d. (true, d);
}

head_row :
    (l : List TRelation) (r : TRelation)
    → head_of l ≡ row r
    → (rest : List TRelation) × (l ≡ r ∷ rest)
head_row [] r e = cc
head_row (x ∷ l) r e = (l, cc)

create_row :
    (r : TRelation) (d : List TRelation) (made : TRelation)
    → (relation_table.create r d).0 ≡ some made
    → ((id : ℕ) × (made ≡ record r { id = id })) × ((relation_table.create r d).1 ≡ d ++ made ∷ [])
create_row r d made e =
    let same : record r { id = length d + 1 } ≡ made = cc in
    ((length d + 1, sym same), ap (λ m. d ++ m ∷ []) same)

relations : Relations (List TRelation) gorm
unfolding head_row create_row
relations = record {
  rows = λ d. d;
  find_rows = λ p d l e. cc;
  first_row = λ p d r e. head_row (where_ p d) r e;
  create_row = create_row;
}

letters-Newest :
    (p : VFriendMessage → Bool) → Newest (λ (m : VFriendMessage). m.snow_id) (where_ p letters)
letters-Newest p = elim (Bool-cases (p (letter (b'2' ∷ [])))) [
  | inl first ↦ elim (Bool-cases (p (letter (b'1' ∷ [])))) [
    | inl second ↦ rw (first, second) ((refl, refl, tt), (tt, tt))
    | inr none_left ↦ rw (first, none_left) (tt, tt)
  ]
  | inr other ↦ elim (Bool-cases (p (letter (b'1' ∷ [])))) [
    | inl second ↦ rw (other, second) (tt, tt)
    | inr none_left ↦ rw (other, none_left) tt
  ]
]

pages : Pages (List TRelation) VFriendMessage gorm.friend_messages (λ m. m.snow_id)
pages = record {
  newest = λ p d. where_ p letters;
  in_order = λ p d. letters-Newest p;
  page_rows = λ p limit offset d l e. cc;
}

abbrev two_friends : List TRelation
two_friends = record { id = 1; type_ = friend; object_a = 1; object_b = 2 } ∷ []

abbrev plain : Passwords
plain = record { enc_password = λ p. p; verify_pwd = λ h p. true }

abbrev strangers : World (Server Stored) (List TRelation)
strangers = record { cache = cluster_of nothing; db = [] }

befriended : (add_friend client (curd gorm) plain 1 2 strangers).0 ≡ ok tt
unfolding add_friend curd axis_chat_server.Db.create_relation
befriended = refl

joined : (add_friend client (curd gorm) plain 1 2 strangers).1.db ≡ two_friends
unfolding add_friend curd axis_chat_server.Db.create_relation
joined = refl

add_friend-friends_example :
    (elem 2
        (query_user_all_friend_id gorm 1 (add_friend client (curd gorm) plain 1 2 strangers).1.db)
      ≡ true)
    × (elem 1
          (query_user_all_friend_id gorm 2 (add_friend client (curd gorm) plain 1 2 strangers).1.db)
        ≡ true)
add_friend-friends_example =
    add_friend-friends client gorm relations plain 1 2 strangers
      (where_ (is_friend_of 1) (add_friend client (curd gorm) plain 1 2 strangers).1.db)
      (where_ (is_friend_of 2) (add_friend client (curd gorm) plain 1 2 strangers).1.db) refl
      befriended refl refl

query_friend_message_by_page-page_example :
    (query_friend_message_by_page gorm 1 2 1 5 []
      ≡ page (page_of 1 5).0 (page_of 1 5).1 (pages.newest (between 1 2) []))
    × (length (query_friend_message_by_page gorm 1 2 1 5 []) ≤ (page_of 1 5).1)
query_friend_message_by_page-page_example =
    query_friend_message_by_page-page gorm pages 1 2 1 5 [] letters refl
