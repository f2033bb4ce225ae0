-- ===== src/Logic/Counting.antt =====
-- The count of a group's online users is the number of entries in the group's table.
use axis_chat_server.Prelude.{
  ℕ, ◌≡◌, refl, ◌≢◌, Bool, Bool-cases, true, false, inl, inr, some, [], Text, ◌=text◌, =text_refl,
  ◌==◌, if◌then◌else◌, ap, sym, ◌∙◌, subst, arith,
}
use axis_chat_server.Prelude.Decimal.{decimal, decimal-apart}
use axis_chat_server.Prelude.Int.{ℤ, incr, decr}
use axis_chat_server.Common.Keys.{group_online_user, group_online_user_count}
use axis_chat_server.Common.Redis.{Client, Cluster}
use axis_chat_server.Common.Redis.Effects.{Hashes, Table, table_at}
use axis_chat_server.Logic.Data.{Stored}

group-apart : (g h : ℕ) → (g == h) ≡ false → (group_online_user g =text group_online_user h) ≡ false
group-apart g h apart = decimal-apart g h apart

module _ {R : Type 0} (api : Client R Stored) (hashes : Hashes R Stored api) where
  abbrev pub tables : Text → Cluster R → Table
  tables key c = table_at api hashes key c

  -- Each group's count is the number of its online users, and each of them has a server id.
  pub record Presence (c : Cluster R) : Type 0 where
    pub counted :
        (g : ℕ)
        → (tables group_online_user_count c).number (decimal g)
          ≡ (tables (group_online_user g) c).size
    pub named : (g : ℕ) (f : Text) → (tables (group_online_user g) c).field f ≢ some []

  -- The tables of the groups are as they were.
  pub record SameGroups (c c' : Cluster R) : Type 0 where
    pub groups : (g : ℕ) → tables (group_online_user g) c' ≡ tables (group_online_user g) c
    pub counts : tables group_online_user_count c' ≡ tables group_online_user_count c

  pub SameGroups-Presence : (c c' : Cluster R) → SameGroups c c' → Presence c → Presence c'
  SameGroups-Presence c c' s p = record {
    counted = λ g.
        ap (λ (t : Table). t.number (decimal g)) s.counts
        ∙ p.counted g
        ∙ ap (λ (t : Table). t.size) (sym (s.groups g));
    named = λ g f e. p.named g f (ap (λ (t : Table). t.field f) (sym (s.groups g)) ∙ e);
  }

  abbrev step : Bool → ℤ → ℤ
  step up x = if up then incr x else decr x

  -- One entry more or less, and the count after it.
  module _ (val : ℕ) (c c1 : Cluster R) (p : Presence c)
      (others : (j : Text) → (group_online_user val =text j) ≡ false → tables j c1 ≡ tables j c)
      (named : (f : Text) → (tables (group_online_user val) c1).field f ≢ some []) where
    named-all : (g : ℕ) (f : Text) → (tables (group_online_user g) c1).field f ≢ some []
    named-all g f = elim (Bool-cases (val == g)) [
      | inl hit ↦
          let here : val ≡ g = ground arith in
          subst (λ i. (tables (group_online_user i) c1).field f ≢ some []) here (named f)
      | inr miss ↦ λ e. p.named g f (
          ap (λ (t : Table). t.field f)
            (sym (others (group_online_user g) (group-apart val g miss)))
          ∙ e)
    ]

    pub kept-Presence :
        (tables (group_online_user val) c1).size ≡ (tables (group_online_user val) c).size
        → Presence c1
    kept-Presence size = record {
      named = named-all;
      counted = λ g.
          ap (λ (t : Table). t.number (decimal g)) (others group_online_user_count refl)
          ∙ p.counted g
          ∙ elim (Bool-cases (val == g)) [
            | inl hit ↦
                let here : val ≡ g = ground arith in
                subst
                  (λ i.
                    (tables (group_online_user i) c).size ≡ (tables (group_online_user i) c1).size)
                  here (sym size)
            | inr miss ↦
                ap (λ (t : Table). t.size)
                  (sym (others (group_online_user g) (group-apart val g miss)))
          ];
    }

    pub moved-Presence :
        (up : Bool) (c2 : Cluster R)
        → (tables (group_online_user val) c1).size ≡ step up (tables (group_online_user val) c).size
        → ((f : Text)
            → (tables group_online_user_count c2).number f ≡ (
                if decimal val =text f
                then step up ((tables group_online_user_count c1).number f)
                else (tables group_online_user_count c1).number f))
        → ((j : Text) → (group_online_user_count =text j) ≡ false → tables j c2 ≡ tables j c1)
        → Presence c2
    moved-Presence up c2 size number later =
        let before : (f : Text)
            → (tables group_online_user_count c1).number f
              ≡ (tables group_online_user_count c).number f =
          λ f. ap (λ (t : Table). t.number f) (others group_online_user_count refl) in
        record {
          named = λ g f e.
              named-all g f
                (ap (λ (t : Table). t.field f) (sym (later (group_online_user g) refl)) ∙ e);
          counted = λ g. number (decimal g) ∙ elim (Bool-cases (val == g)) [
            | inl hit ↦
                let here : val ≡ g = ground arith in
                let t : (decimal val =text decimal g) ≡ true = rw here (=text_refl (decimal g)) in
                rw
                  (t, before (decimal g), p.counted g, sym here, later (group_online_user val) refl)
                  (sym size)
            | inr miss ↦
                rw (decimal-apart val g miss, before (decimal g), p.counted g)
                  (ap (λ (t : Table). t.size)
                    (sym (
                      later (group_online_user g) refl
                      ∙ others (group_online_user g) (group-apart val g miss))))
          ];
        }
