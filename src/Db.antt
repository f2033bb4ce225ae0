-- ===== src/Db.antt =====
-- db/model.go and db/curd.go: the queries, over the tables of gorm. A condition of Where is a test of a
-- row; what gorm does with it is the parameter `Gorm`, over the state `D` of the database. The
-- deletion marks and times of the records are left out.
pub mod Rows
pub mod Friends
pub mod Pages
pub mod Tests
use axis_chat_server.Prelude.{
  ℕ, ◌-◌, ◌*◌, Bool, true, false, ◌&&◌, ◌||◌, not, Option, none, some, List, [], ◌∷◌, ◌++◌, map,
  Text, ◌=text◌, ltb, ◌==◌, if◌then◌else◌,
}
use axis_chat_server.Logic.Data.{TUser, no_user, TGroup, RelationType, friend, group, Db}

pub record TRelation : Type 0 where
  pub id : ℕ
  pub type_ : RelationType
  pub object_a : ℕ
  pub object_b : ℕ

pub record TMessage : Type 0 where
  pub belong : ℕ
  pub snow_id : Text
  pub type_ : RelationType
  pub content : Text
  pub from_a : ℕ
  pub to_b : ℕ
  pub message_type : Text

-- a row of the view of the private messages
pub record VFriendMessage : Type 0 where
  pub id : ℕ
  pub belong : ℕ
  pub userid : ℕ
  pub friend_id : ℕ
  pub content : Text
  pub message_type : Text
  pub friend_name : Text
  pub from_username : Text
  pub avatar : Text
  pub snow_id : Text

-- a row of the view of the groups' messages
pub record VGroupMessage : Type 0 where
  pub id : ℕ
  pub belong : ℕ
  pub userid : ℕ
  pub group_id : ℕ
  pub content : Text
  pub message_type : Text
  pub group_name : Text
  pub from_username : Text
  pub avatar : Text
  pub snow_id : Text

-- The outcome of First: a row, ErrRecordNotFound, or another error.
pub data FirstRow (Row : Type 0) : Type 0 where
  row : Row → FirstRow Row
  not_found : FirstRow Row
  query_failed : FirstRow Row

-- The calls of gorm on a table; `none` is an error.
pub record Table (D Row : Type 0) : Type 0 where
  pub first : (Row → Bool) → D → FirstRow Row
  pub find : (Row → Bool) → D → Option (List Row)
  pub create : Row → D → Option Row × D

-- ORDER BY snow_id DESC LIMIT and OFFSET, of the rows that a test selects
pub record View (D Row : Type 0) : Type 0 where
  pub find_page : (Row → Bool) → (limit offset : ℕ) → D → Option (List Row)

pub record Gorm (D : Type 0) : Type 0 where
  pub users : Table D TUser
  pub groups : Table D TGroup
  pub relations : Table D TRelation
  pub friend_messages : View D VFriendMessage
  pub group_messages : View D VGroupMessage
  pub update_password : ℕ → Text → D → Bool × D
  pub create_in_batches : List TMessage → ℕ → D → Bool × D

-- a record that First fills, when it finds a row
abbrev pub filled : {Row : Type 0} → Row → FirstRow Row → Row
filled old (row r) = r
filled old not_found = old
filled old query_failed = old

abbrev pub found_rows : {Row : Type 0} → Option (List Row) → List Row
found_rows none = []
found_rows (some rows) = rows

-- the columns that a query for other users selects
abbrev pub without_password : TUser → TUser
without_password user = record user { password = [] }

abbrev pub has_id : ℕ → List ℕ → Bool
has_id id [] = false
has_id id (x ∷ xs) = (x == id) || has_id id xs

abbrev pub is_type : RelationType → RelationType → Bool
is_type friend friend = true
is_type group group = true
is_type friend group = false
is_type group friend = false

-- The order of Go's strings.
abbrev pub text_lt : Text → Text → Bool
text_lt [] [] = false
text_lt [] (y ∷ ys) = true
text_lt (x ∷ xs) [] = false
text_lt (x ∷ xs) (y ∷ ys) = ltb x y || ((x == y) && text_lt xs ys)

-- `sort.Slice` by a text of each row
module _ {Row : Type 0} (snow_id : Row → Text) where
  abbrev pub insert_by : Row → List Row → List Row
  insert_by x [] = x ∷ []
  insert_by x (y ∷ ys) = if text_lt (snow_id x) (snow_id y) then x ∷ y ∷ ys else y ∷ insert_by x ys

  unfoldable pub sort_slice : List Row → List Row
  sort_slice [] = []
  sort_slice (x ∷ xs) = insert_by x (sort_slice xs)

-- current and pageSize, or the first page of 16 when one of them is not positive, which is 0 here
abbrev pub page_of : ℕ → ℕ → ℕ × ℕ
page_of current page_size =
    if (current == 0) || (page_size == 0) then (1, 16) else (current, page_size)

abbrev pub friend_ids : ℕ → List TRelation → List ℕ
friend_ids userid [] = []
friend_ids userid (val ∷ relation_list) =
    (if not (val.object_b == userid) then val.object_b ∷ [] else [])
    ++ ((if not (val.object_a == userid) then val.object_a ∷ [] else [])
        ++ friend_ids userid relation_list)

-- the condition of QueryUserAllFriendId
abbrev pub is_friend_of : ℕ → TRelation → Bool
is_friend_of userid r = ((r.object_a == userid) || (r.object_b == userid)) && is_type r.type_ friend

-- the condition of the private messages of two users in a user's letter box
abbrev pub between : ℕ → ℕ → VFriendMessage → Bool
between userid friend_id m =
    (((m.userid == userid) && (m.friend_id == friend_id))
      || ((m.friend_id == userid) && (m.userid == friend_id)))
    && (m.belong == userid)

abbrev pub in_group : ℕ → VGroupMessage → Bool
in_group group_id m = (m.group_id == group_id) && (m.belong == group_id)

-- the same relation, in the same direction
abbrev pub same_relation : TRelation → TRelation → Bool
same_relation relation r =
    (r.object_a == relation.object_a)
    && (r.object_b == relation.object_b)
    && is_type r.type_ relation.type_

abbrev pub created_or : {D : Type 0} → TRelation → Option TRelation × D → TRelation × D
created_or relation (none, d) = (relation, d)
created_or relation (some made, d) = (made, d)

module _ {D : Type 0} (gorm : Gorm D) where
  unfoldable pub query_user_by_id : ℕ → TUser → D → TUser
  query_user_by_id id user d = filled user (gorm.users.first (λ u. u.id == id) d)

  unfoldable pub query_user_by_user_name : Text → TUser → D → TUser
  query_user_by_user_name username user d =
      filled user (gorm.users.first (λ u. u.username =text username) d)

  unfoldable pub query_user_all_group_id : ℕ → D → List ℕ
  query_user_all_group_id userid d =
      map (λ (val : TRelation). val.object_b)
        (found_rows (gorm.relations.find (λ r. (r.object_a == userid) && is_type r.type_ group) d))

  unfoldable pub query_user_all_friend_id : ℕ → D → List ℕ
  query_user_all_friend_id userid d =
      friend_ids userid (found_rows (gorm.relations.find (is_friend_of userid) d))

  unfoldable pub create_user : TUser → D → TUser × D
  create_user user d =
      let (made, d') = gorm.users.create user d in
      elim made [ none ↦ (user, d') | some user' ↦ (user', d') ]

  unfoldable pub query_group_by_id : ℕ → TGroup → D → TGroup
  query_group_by_id id empty d = filled empty (gorm.groups.first (λ g. g.id == id) d)

  unfoldable pub query_group_by_group_name : Text → TGroup → D → TGroup
  query_group_by_group_name group_name empty d =
      filled empty (gorm.groups.first (λ g. g.group_name =text group_name) d)

  abbrev pub users_of : Option (List TRelation) → D → List TUser
  users_of none d = []
  users_of (some relation_list) d =
      let all_user_id = map (λ (val : TRelation). val.object_a) relation_list in
      map without_password (found_rows (gorm.users.find (λ u. has_id u.id all_user_id) d))

  unfoldable pub query_group_all_user : ℕ → D → List TUser
  query_group_all_user group_id d =
      users_of (gorm.relations.find (λ r. is_type r.type_ group && (r.object_b == group_id)) d) d

  unfoldable pub create_group : TGroup → D → TGroup × D
  create_group new d =
      let (made, d') = gorm.groups.create new d in
      elim made [ none ↦ (new, d') | some created ↦ (created, d') ]

  unfoldable pub update_user_password : ℕ → Text → D → Bool × D
  update_user_password userid enc_pwd d = gorm.update_password userid enc_pwd d

  unfoldable pub query_friend_message_by_page : ℕ → ℕ → ℕ → ℕ → D → List VFriendMessage
  query_friend_message_by_page userid friend_id current page_size d =
      let page = page_of current page_size in
      sort_slice (λ (m : VFriendMessage). m.snow_id)
        (found_rows (
          gorm.friend_messages.find_page (between userid friend_id) page.1 ((page.0 - 1) * page.1)
            d))

  unfoldable pub query_group_message_by_page : ℕ → ℕ → ℕ → D → List VGroupMessage
  query_group_message_by_page group_id current page_size d =
      let page = page_of current page_size in
      sort_slice (λ (m : VGroupMessage). m.snow_id)
        (found_rows
          (gorm.group_messages.find_page (in_group group_id) page.1 ((page.0 - 1) * page.1) d))

  abbrev pub first_or_create : TRelation → FirstRow TRelation → D → TRelation × D
  first_or_create relation (row r) d = (r, d)
  first_or_create relation query_failed d = (relation, d)
  first_or_create relation not_found d = created_or relation (gorm.relations.create relation d)

  unfoldable pub create_relation : TRelation → D → TRelation × D
  create_relation relation d =
      first_or_create relation (gorm.relations.first (same_relation relation) d) d

  -- Writes of 100 rows; an error is logged.
  unfoldable pub save_msg_in_batches : List TMessage → D → D
  save_msg_in_batches [] d = d
  save_msg_in_batches (m ∷ msg) d = (gorm.create_in_batches (m ∷ msg) 100 d).1

  -- The database of the logic layer: its calls with the empty records that the handlers pass.
  unfoldable pub curd : Db D
  curd = record {
    query_user_all_group_id = query_user_all_group_id;
    query_user_all_friend_id = query_user_all_friend_id;
    query_group_all_user = query_group_all_user;
    query_user_by_user_name = λ name d. query_user_by_user_name name no_user d;
    query_user_by_id = λ id d. query_user_by_id id no_user d;
    query_group_by_group_name = λ name d.
        (query_group_by_group_name name
          (record { id = 0; userid = 0; group_name = []; notice = [] }) d).id;
    create_user = create_user;
    create_group = create_group;
    create_relation = λ t a b d.
        let (relation, d') =
          create_relation (record { id = 0; type_ = t; object_a = a; object_b = b }) d in
        (relation.id, d');
    update_user_password = update_user_password;
  }
