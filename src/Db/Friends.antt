-- ===== src/Db/Friends.antt =====
-- Who is whose friend, by the table of relations.
use axis_chat_server.Prelude.{
  ℕ, ◌≡◌, refl, Bool, Bool-cases, true, false, not, ◌&&◌, ◌||◌, inl, inr, Option, none, some, List,
  [], ◌∷◌, ◌++◌, elem, elem-append, ◌==◌, if◌then◌else◌, ap, sym, ◌∙◌, arith,
}
use axis_chat_server.Common.Redis.{Client, Result, ok, err}
use axis_chat_server.Logic.Data.{friend, Stored, Passwords, World, LogicError, add_group_failed}
use axis_chat_server.Logic.Session.{add_friend}
use axis_chat_server.Db.{
  Gorm, TRelation, FirstRow, row, not_found, query_failed, is_type, friend_ids, is_friend_of,
  query_user_all_friend_id, same_relation, created_or, first_or_create, create_relation, curd,
}
use axis_chat_server.Db.Rows.{where_, Relations}

-- A row that makes two different users friends of each other.
abbrev pub joins : ℕ → ℕ → TRelation → Bool
joins a b r =
    is_type r.type_ friend
    && (((r.object_a == a) && (r.object_b == b)) || ((r.object_a == b) && (r.object_b == a)))

abbrev pub any_joins : ℕ → ℕ → List TRelation → Bool
any_joins a b [] = false
any_joins a b (r ∷ rows) = joins a b r || any_joins a b rows

elem-one : (b x : ℕ) (keep : Bool) → elem b (if keep then x ∷ [] else []) ≡ (keep && (x == b))
elem-one b x true = ground arith
elem-one b x false = refl

-- What a row of the selection adds to the friends.
elem-friend_ids_row :
    (a b : ℕ) (r : TRelation) (rows : List TRelation)
    → elem b (friend_ids a (r ∷ rows)) ≡ (
        (not (r.object_b == a) && (r.object_b == b))
        || ((not (r.object_a == a) && (r.object_a == b)) || elem b (friend_ids a rows)))
elem-friend_ids_row a b r rows =
    let later = friend_ids a rows in
    let second = if not (r.object_a == a) then r.object_a ∷ [] else [] in
    elem-append b (if not (r.object_b == a) then r.object_b ∷ [] else []) (second ++ later)
    ∙ rw
        (
          elem-one b r.object_b (not (r.object_b == a)),
          elem-append b second later,
          elem-one b r.object_a (not (r.object_a == a)),
        )
        refl

joins_row :
    (a b x y : ℕ) (t later : Bool)
    → (a == b) ≡ false
    → (((x == a) || (y == a)) && t) ≡ true
    → ((not (y == a) && (y == b)) || ((not (x == a) && (x == b)) || later))
      ≡ ((t && (((x == a) && (y == b)) || ((x == b) && (y == a)))) || later)
joins_row a b x y t later apart e = ground arith

no_joins_row :
    (a b x y : ℕ) (t : Bool)
    → (((x == a) || (y == a)) && t) ≡ false
    → (t && (((x == a) && (y == b)) || ((x == b) && (y == a)))) ≡ false
no_joins_row a b x y t e = ground arith

-- The friends of a user are those whom a row joins with the user.
elem-friend_ids :
    (a b : ℕ) (rows : List TRelation)
    → (a == b) ≡ false
    → elem b (friend_ids a (where_ (is_friend_of a) rows)) ≡ any_joins a b rows
elem-friend_ids a b [] apart = refl
elem-friend_ids a b (r ∷ rows) apart = elim (Bool-cases (is_friend_of a r)) [
  | inl selected ↦ rw selected (
      elem-friend_ids_row a b r (where_ (is_friend_of a) rows)
      ∙ rw (elem-friend_ids a b rows apart) (
          joins_row a b r.object_a r.object_b (is_type r.type_ friend) (any_joins a b rows) apart
            selected))
  | inr other ↦
      rw (other, no_joins_row a b r.object_a r.object_b (is_type r.type_ friend) other)
        (elem-friend_ids a b rows apart)
]

any_joins-sym : (a b : ℕ) (rows : List TRelation) → any_joins a b rows ≡ any_joins b a rows
any_joins-sym a b [] = refl
any_joins-sym a b (r ∷ rows) = ground (arith, any_joins-sym a b rows)

any_joins-append :
    (a b : ℕ) (xs ys : List TRelation)
    → any_joins a b (xs ++ ys) ≡ (any_joins a b xs || any_joins a b ys)
any_joins-append a b [] ys = refl
any_joins-append a b (x ∷ xs) ys = ground (arith, any_joins-append a b xs ys)

-- the relation that AddFriend creates
abbrev pub new_friend : ℕ → ℕ → TRelation
new_friend a b = record { id = 0; type_ = friend; object_a = a; object_b = b }

same_relation-joins :
    (a b x y : ℕ) (t : Bool)
    → (((x == a) && (y == b)) && t) ≡ true
    → (t && (((x == a) && (y == b)) || ((x == b) && (y == a)))) ≡ true
same_relation-joins a b x y t hit = ground arith

-- A relation that is found joins its users.
any_joins-where_ :
    (a b : ℕ) (r : TRelation) (rows rest : List TRelation)
    → where_ (same_relation (new_friend a b)) rows ≡ r ∷ rest
    → any_joins a b rows ≡ true
any_joins-where_ a b r [] rest e = cc
any_joins-where_ a b r (x ∷ rows) rest e = elim (Bool-cases (same_relation (new_friend a b) x)) [
  | inl hit ↦ rw (same_relation-joins a b x.object_a x.object_b (is_type x.type_ friend) hit) refl
  | inr miss ↦
      let behind : any_joins a b rows ≡ true = any_joins-where_ a b r rows rest (rw miss at e) in
      ground arith
]

joins_new : (a b id : ℕ) → joins a b (record (new_friend a b) { id = id }) ≡ true
joins_new a b id = ground arith

module _ {D : Type 0} (gorm : Gorm D) (db : Relations D gorm) where
  -- The friends that a query gives, when it succeeds.
  pub elem-query_user_all_friend_id :
      (a b : ℕ) (d : D) (l : List TRelation)
      → (a == b) ≡ false
      → gorm.relations.find (is_friend_of a) d ≡ some l
      → elem b (query_user_all_friend_id gorm a d) ≡ any_joins a b (db.rows d)
  unfolding query_user_all_friend_id
  elem-query_user_all_friend_id a b d l apart e =
      rw (e, db.find_rows (is_friend_of a) d l e) (elem-friend_ids a b (db.rows d) apart)

  -- Of two different users, one is among the friends of the other exactly when the other is among the
  -- friends of the one, when both queries succeed and give the rows that they ask for.
  pub query_user_all_friend_id-sym :
      (a b : ℕ) (d : D) (l m : List TRelation)
      → (a == b) ≡ false
      → gorm.relations.find (is_friend_of a) d ≡ some l
      → gorm.relations.find (is_friend_of b) d ≡ some m
      → elem b (query_user_all_friend_id gorm a d) ≡ elem a (query_user_all_friend_id gorm b d)
  query_user_all_friend_id-sym a b d l m apart el em =
      elem-query_user_all_friend_id a b d l apart el
      ∙ any_joins-sym a b (db.rows d)
      ∙ sym (elem-query_user_all_friend_id b a d m (ground arith) em)

  created-joins :
      (a b : ℕ) (d : D) (q : Option TRelation × D)
      → gorm.relations.create (new_friend a b) d ≡ q
      → ((created_or (new_friend a b) q).0.id == 0) ≡ false
      → any_joins a b (db.rows (created_or (new_friend a b) q).1) ≡ true
  created-joins a b d (none, d') e known = cc
  created-joins a b d (some made, d') e known =
      let ((id, is_rel), grew) = db.create_row (new_friend a b) d made (ap (λ q. q.0) e) in
      let after : db.rows d' ≡ db.rows d ++ made ∷ [] = ap (λ q. db.rows q.1) (sym e) ∙ grew in
      rw (after, any_joins-append a b (db.rows d) (made ∷ []), is_rel, joins_new a b id)
        (ground arith)

  first-joins :
      (a b : ℕ) (d : D) (f : FirstRow TRelation)
      → gorm.relations.first (same_relation (new_friend a b)) d ≡ f
      → ((first_or_create gorm (new_friend a b) f d).0.id == 0) ≡ false
      → any_joins a b (db.rows (first_or_create gorm (new_friend a b) f d).1) ≡ true
  first-joins a b d (row r) e known =
      let (rest, there) = db.first_row (same_relation (new_friend a b)) d r e in
      any_joins-where_ a b r (db.rows d) rest there
  first-joins a b d query_failed e known = cc
  first-joins a b d not_found e known =
      created-joins a b d (gorm.relations.create (new_friend a b) d) refl known

  -- After CreateRelation of a friend relation whose record has an id then, a row joins the users.
  pub create_relation-joins :
      (a b : ℕ) (d : D)
      → ((create_relation gorm (new_friend a b) d).0.id == 0) ≡ false
      → any_joins a b (db.rows (create_relation gorm (new_friend a b) d).1) ≡ true
  unfolding create_relation
  create_relation-joins a b d known =
      first-joins a b d (gorm.relations.first (same_relation (new_friend a b)) d) refl known

added :
    (failed : Bool)
    → ◌≡◌ {A = Result LogicError (Unit {0})}
        (if failed then err add_group_failed else ok tt)
        (ok tt)
    → failed ≡ false
added true e = cc
added false e = refl

module _ {R D : Type 0} (api : Client R Stored) (gorm : Gorm D) (db : Relations D gorm)
    (passwords : Passwords) where
  -- After an AddFriend between different users that returns without an error, over the queries of
  -- db/curd.go, each is among the friends of the other, when the queries for the friends succeed.
  pub add_friend-friends :
      (userid friend_id : ℕ) (w : World R D) (l m : List TRelation)
      → (userid == friend_id) ≡ false
      → (add_friend api (curd gorm) passwords userid friend_id w).0 ≡ ok tt
      → gorm.relations.find
          (is_friend_of userid)
          (add_friend api (curd gorm) passwords userid friend_id w).1.db
        ≡ some l
      → gorm.relations.find
          (is_friend_of friend_id)
          (add_friend api (curd gorm) passwords userid friend_id w).1.db
        ≡ some m
      → (elem friend_id (
            query_user_all_friend_id gorm userid
              (add_friend api (curd gorm) passwords userid friend_id w).1.db)
          ≡ true)
        × (elem userid (
              query_user_all_friend_id gorm friend_id
                (add_friend api (curd gorm) passwords userid friend_id w).1.db)
            ≡ true)
  unfolding add_friend curd
  add_friend-friends userid friend_id w l m apart e el em =
      let made = create_relation gorm (new_friend userid friend_id) w.db in
      let known : (made.0.id == 0) ≡ false = added (made.0.id == 0) e in
      let there = create_relation-joins gorm db userid friend_id w.db known in
      (
        elem-query_user_all_friend_id gorm db userid friend_id made.1 l apart el ∙ there,
        elem-query_user_all_friend_id gorm db friend_id userid made.1 m (ground arith) em
            ∙ any_joins-sym friend_id userid (db.rows made.1)
            ∙ there,
      )
