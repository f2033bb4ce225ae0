-- ===== src/Discovery/Update.antt =====
-- SetServiceList and DelServiceList keep the two lists of every server id aligned, and act on them
-- as an insertion into and a removal from a map from keys to instances.
use axis_chat_server.Prelude.{
  ℕ, ◌<◌, ◌∙◌, ◌≡◌, refl, Bool-cases, true, false, ◌&&◌, not, ◌⊎◌, inl, inr, Option, Option-cases,
  none, some, is_some, List, [], ◌∷◌, ◌++◌, arith, Text, ◌=text◌, eq_of_=text, length,
  length-append, get_or, leb, ap, sym, if◌then◌else◌,
}
use axis_chat_server.Discovery.{
  ServiceDiscovery, write, fine, crashed, index_in_slice, cut, instances, add_instance, set_at,
  del_at,
}
use axis_chat_server.Discovery.Aligned.{
  assoc, assoc-append, assoc-none, assoc-cut, has, index-has, index-lt, Distinct, Distinct-append,
  Distinct-cut, length-cut,
}

abbrev pub IsAlignedAt : {I : Type 0} → List Text → List I → Type 0
IsAlignedAt keys ins = (length keys ≡ length ins) × Distinct keys

abbrev pub IsAligned : {I : Type 0} → ServiceDiscovery I → Type 0
IsAligned s = (id : Text) → IsAlignedAt (s.server_key id) (instances s id)

-- The map that the lists of a server id stand for.
abbrev pub instance_of : {I : Type 0} → ServiceDiscovery I → Text → Text → Option I
instance_of s id key = assoc key (s.server_key id) (instances s id)

no_keys :
    {I : Type 0} (keys : List Text) (ins : Option (List I))
    → ins ≡ none
    → length keys ≡ length (get_or [] ins)
    → keys ≡ []
no_keys [] ins e n = refl
no_keys (k ∷ keys) none e n = absurd (omega arith)
no_keys (k ∷ keys) (some l) e n = cc

module _ {I : Type 0} (id key : Text) (ins : I) (s : ServiceDiscovery I)
    (a : (j : Text) → length (s.server_key j) ≡ length (instances s j)) where
  key-add :
      (j : Text)
      → (add_instance id key ins s).server_key j
        ≡ (if id =text j then s.server_key id ++ key ∷ [] else s.server_key j)
  key-add j = elim (Option-cases (s.server_list id)) [
    | inl e ↦ rw (add_instance, e, no_keys (s.server_key id) (s.server_list id) e (a id)) refl
    | inr (l, e) ↦ rw (add_instance, e) refl
  ]

  instances-add :
      (j : Text)
      → instances (add_instance id key ins s) j
        ≡ (if id =text j then instances s id ++ ins ∷ [] else instances s j)
  instances-add j = elim (Bool-cases (id =text j)) [
    | inl hit ↦ elim (Option-cases (s.server_list id)) [
      | inl e ↦ rw (add_instance, e, hit) refl
      | inr (l, e) ↦ rw (add_instance, e, hit) refl
    ]
    | inr miss ↦ elim (Option-cases (s.server_list id)) [
      | inl e ↦ rw (add_instance, e, miss) refl
      | inr (l, e) ↦ rw (add_instance, e, miss) refl
    ]
  ]

module _ {I : Type 0} (id key : Text) (s : ServiceDiscovery I) (a : IsAligned s) where
  add-IsAligned :
      (ins : I) → has key (s.server_key id) ≡ false → IsAligned (add_instance id key ins s)
  add-IsAligned ins new j =
      rw (key-add id key ins s (λ i. (a i).0) j, instances-add id key ins s (λ i. (a i).0) j)
        (elim (Bool-cases (id =text j)) [
          | inl hit ↦ rw hit (
            omega (
              arith,
              (a id).0,
              length-append (s.server_key id) (key ∷ []),
              length-append (instances s id) (ins ∷ []),
            ),
            Distinct-append key (s.server_key id) new (a id).1,
          )
          | inr miss ↦ rw miss (a j)
        ])

  instance_of-add :
      (ins : I) (j k : Text)
      → instance_of (add_instance id key ins s) j k ≡ (
          if (id =text j) && (key =text k) && not (has key (s.server_key id))
          then some ins
          else instance_of s j k)
  instance_of-add ins j k =
      rw (key-add id key ins s (λ i. (a i).0) j, instances-add id key ins s (λ i. (a i).0) j)
        (elim (Bool-cases (id =text j)) [
          | inl hit ↦
              rw (hit, sym (eq_of_=text id j hit))
                (assoc-append k key (s.server_key id) (instances s id) ins (a id).0
                  ∙ elim (Bool-cases (key =text k)) [
                    | inl same ↦
                        rw (same, sym (eq_of_=text key k same))
                          (ground (arith, assoc-none key (s.server_key id) (instances s id)))
                    | inr other ↦
                        rw other (ground (arith, assoc-none k (s.server_key id) (instances s id)))
                  ])
          | inr miss ↦ rw miss refl
        ])

  -- the state after the removal of the place `idx`
  abbrev without : ℕ → ServiceDiscovery I
  without idx = record s {
    server_list = write s.server_list id (some (cut idx (instances s id)));
    server_key = write s.server_key id (cut idx (s.server_key id));
  }

  without-IsAligned : (idx : ℕ) → idx < length (s.server_key id) → IsAligned (without idx)
  without-IsAligned idx low j = elim (Bool-cases (id =text j)) [
    | inl hit ↦ rw hit (
      omega (
        arith,
        (a id).0,
        length-cut (s.server_key id) idx low,
        length-cut (instances s id) idx (omega (arith, (a id).0)),
      ),
      Distinct-cut (s.server_key id) idx (a id).1,
    )
    | inr miss ↦ rw miss (a j)
  ]

  instance_of-without :
      (idx : ℕ) (j k : Text)
      → index_in_slice key (s.server_key id) ≡ some idx
      → instance_of (without idx) j k
        ≡ (if (id =text j) && (key =text k) then none else instance_of s j k)
  instance_of-without idx j k e = elim (Bool-cases (id =text j)) [
    | inl hit ↦
        rw (hit, sym (eq_of_=text id j hit))
          (assoc-cut k key (s.server_key id) (instances s id) idx (a id).1 (a id).0 e)
    | inr miss ↦ rw miss refl
  ]

  -- The lists of `s'` are aligned, and have the entry `new`, when there is one, under a key that had none.
  abbrev pub Entered : Option I → ServiceDiscovery I → Type 0
  Entered new s' =
      IsAligned s'
      × ((j k : Text)
          → instance_of s' j k ≡ (
              if (id =text j) && (key =text k) && not (has key (s.server_key id))
              then new
              else instance_of s j k))

  unchanged-Entered :
      (new : Option I) → (has key (s.server_key id) ≡ true) ⊎ (new ≡ none) → Entered new s
  unchanged-Entered new (inl e) = rw e (a, λ j k. ground arith)
  unchanged-Entered new (inr e) = (
    a,
    λ j k. elim (Bool-cases ((id =text j) && (key =text k) && not (has key (s.server_key id)))) [
      | inr off ↦ rw off refl
      | inl on ↦
          let i : id ≡ j = eq_of_=text id j (ground arith) in
          let h : key ≡ k = eq_of_=text key k (ground arith) in
          let fresh : has key (s.server_key id) ≡ false = ground arith in
          rw (on, e, sym i, sym h) (assoc-none key (s.server_key id) (instances s id) fresh)
    ],
  )

  -- On aligned lists, SetServiceList keeps the lists aligned, and enters the connection that the
  -- address gives, if it gives one, under a key that has no entry; with an entry of that key, and
  -- at every other key, nothing changes.
  pub set_at-IsAligned :
      (dial : Text → Option I) (val : Text) → Entered (dial val) (set_at dial id key val s)
  unfolding set_at
  set_at-IsAligned dial val = elim (Option-cases (index_in_slice key (s.server_key id))) [
    | inr (idx, e) ↦
        rw (set_at, e)
          (unchanged-Entered (dial val)
            (inl (sym (index-has key (s.server_key id)) ∙ ap is_some e)))
    | inl e ↦
        let new = sym (index-has key (s.server_key id)) ∙ ap is_some e in
        elim (Option-cases (dial val)) [
          | inl d ↦ rw (set_at, e, d) (unchanged-Entered none (inr refl))
          | inr (ins, d) ↦ rw (set_at, e, d) (add-IsAligned ins new, λ j k. instance_of-add ins j k)
        ]
  ]

  -- On aligned lists, DelServiceList of a key that has an entry keeps the lists aligned and removes
  -- that entry only; of a key without one it panics.
  pub del_at-IsAligned :
      if has key (s.server_key id)
      then ((s' : ServiceDiscovery I) × (del_at id key s ≡ fine s')
          × IsAligned s'
          × ((j k : Text)
              → instance_of s' j k
                ≡ (if (id =text j) && (key =text k) then none else instance_of s j k)))
      else del_at id key s ≡ crashed
  unfolding del_at
  del_at-IsAligned = elim (Option-cases (index_in_slice key (s.server_key id))) [
    | inl e ↦
        let absent : has key (s.server_key id) ≡ false =
          sym (index-has key (s.server_key id)) ∙ ap is_some e in
        rw (absent, del_at, e) refl
    | inr (idx, e) ↦
        let present : has key (s.server_key id) ≡ true =
          sym (index-has key (s.server_key id)) ∙ ap is_some e in
        let low = index-lt key (s.server_key id) idx e in
        let t : leb (length (instances s id)) idx ≡ false = ground (arith, (a id).0) in
        rw (present, del_at, e, t)
          (without idx, refl, without-IsAligned idx low, λ j k. instance_of-without idx j k e)
  ]
