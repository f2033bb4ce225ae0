-- ===== src/Connect/ReadPump/Lifecycle.antt =====
-- A connection of a user who is in one group, from the first request to its end.
use axis_chat_server.Prelude.{
  ℕ, ◌+◌, ◌≡◌, refl, ◌≢◌, true, false, none, some, List, [], ◌∷◌, ◌++◌, set, get_elem?,
  get_elem?-set_self, lookup, elem, Text, ◌=text◌, ◌==◌, ==_refl, arith, ap, sym, subst, ◌∙◌,
}
use axis_chat_server.Common.Keys.{user_group_list}
use axis_chat_server.Common.Redis.{Client, Cluster, ok, redis_get_string}
use axis_chat_server.Connect.Channel.{Ptr, nil_ptr}
use axis_chat_server.Connect.GroupNode.Delete.{erase}
use axis_chat_server.Connect.Bucket.{Bucket, no_group, put_channel, delete_chanel}
use axis_chat_server.Connect.Bucket.Online.{Online}
use axis_chat_server.Connect.Bucket.Join.{put_channel-Online}
use axis_chat_server.Connect.Bucket.Leave.{delete_chanel-Online}
use axis_chat_server.Connect.Bucket.Fields.{put_channel-Joined, delete_chanel-userid}
use axis_chat_server.Connect.Letters.{Pump, goes_on, returned, crashed}
use axis_chat_server.Connect.Server.{bucket, bucket_index}
use axis_chat_server.Connect.ReadPump.{
  Operator, Remote, Call, told, read_failed, received, Reading, with_bucket, put_all, read_step,
  leave_bucket, disconnect, read_pump,
}
use axis_chat_server.Connect.ReadPump.Ends.{read_pump-ends}
use axis_chat_server.Logic.Data.{Stored, ids_json}

module _ {R D : Type 0} (api : Client R Stored) (city_hash32 : Text → ℕ → ℕ)
    (op : Operator R D) where
  -- The end of a connection by what DisConnect does: its answer is ignored, and its panic is the
  -- connection's.
  abbrev pub Told : Call R D Unit → Remote R D → Pump × Reading R D → Type 0
  Told none w p = (p.0 ≡ crashed) × (p.1.world ≡ w)
  Told (some (res, w')) w p = (p.0 ≡ returned) × (p.1.world ≡ w')

  -- What a connection leaves behind: the online members of its group, no connection of the user in the
  -- user's bucket, and the end by the outcome of DisConnect of the user in the state `w`.
  pub record Left (userid group_id : ℕ) (xs : List Ptr) (w : Remote R D) (p : Pump × Reading R D)
      : Type 0 where
    pub own : Bucket
    pub at : bucket city_hash32 userid p.1.ws ≡ some own
    pub members : Online own p.1.memory group_id xs
    pub unregistered : lookup userid own.socket_map ≡ none
    pub ended : Told (op.dis_connect userid w) w p

  told-Left :
      (userid group_id : ℕ) (xs : List Ptr) (own : Bucket) (q : Call R D Unit) (s : Reading R D)
      → op.dis_connect userid s.world ≡ q
      → bucket city_hash32 userid s.ws ≡ some own
      → Online own s.memory group_id xs
      → lookup userid own.socket_map ≡ none
      → Left userid group_id xs s.world (told api city_hash32 op q s)
  told-Left userid group_id xs own none s e at on gone = record {
    own = own;
    at = at;
    members = on;
    unregistered = gone;
    ended = subst (λ q. Told q s.world (crashed, s)) (sym e) (refl, refl);
  }
  told-Left userid group_id xs own (some (res, w')) s e at on gone = record {
    own = own;
    at = at;
    members = on;
    unregistered = gone;
    ended = subst (λ q. Told q s.world (returned, record s { world = w' })) (sym e) (refl, refl);
  }

  leave-Left :
      (ch : Ptr) (userid group_id : ℕ) (b : Bucket) (xs : List Ptr) (s : Reading R D)
      → group_id ≢ no_group
      → ch ≢ nil_ptr
      → (userid == 0) ≡ false
      → elem ch xs ≡ false
      → (s.memory.channels ch).group_nodes ≡ []
      → bucket city_hash32 userid s.ws ≡ some b
      → Online b s.memory group_id xs
      → (let joined =
            with_bucket api city_hash32 op userid (put_channel userid group_id ch b s.memory) s in
          Left userid group_id xs s.world (disconnect api city_hash32 op ch joined))
  unfolding disconnect bucket
  leave-Left ch userid group_id b xs s real nz known out new at on =
      let (b1, m1) = put_channel userid group_id ch b s.memory in
      let joined = with_bucket api city_hash32 op userid (b1, m1) s in
      let j = put_channel-Joined userid group_id ch b s.memory real in
      let (members, registered, others) =
        put_channel-Online userid group_id ch b s.memory xs real nz out on in
      let idx = bucket_index city_hash32 userid s.ws in
      let at1 : get_elem? joined.ws.buckets idx ≡ some b1 =
        get_elem?-set_self s.ws.buckets idx b1 b at in
      let own : lookup (m1.channels ch).userid b1.socket_map ≡ some ch =
        ap (λ u. lookup u b1.socket_map) j.owned ∙ registered in
      let (left, gone, kept) =
        delete_chanel-Online ch ch j.node group_id b1 m1 (ch ∷ xs) own refl
          (j.nodes ∙ ap (λ ns. ns ++ j.node ∷ []) new) j.found (ground arith) members in
      let (b2, m2) = delete_chanel ch b1 m1 in
      let at2 : get_elem? (set joined.ws.buckets idx b2) idx ≡ some b2 =
        get_elem?-set_self joined.ws.buckets idx b2 b1 at1 in
      let done : disconnect api city_hash32 op ch joined
          ≡ leave_bucket api city_hash32 op userid ch (some b1) joined =
        rw (disconnect, j.owned, known)
          (ap (λ o. leave_bucket api city_hash32 op userid ch o joined) at1) in
      let erased : erase ch (ch ∷ xs) ≡ xs = rw ==_refl refl in
      let user : (m2.channels ch).userid ≡ userid = delete_chanel-userid ch ch b1 m1 ∙ j.owned in
      subst (Left userid group_id xs s.world) (sym done) (
        told-Left userid group_id xs b2 (op.dis_connect (m2.channels ch).userid s.world)
          (with_bucket api city_hash32 op userid (b2, m2) joined)
          (ap (λ u. op.dis_connect u s.world) (sym user)) at2
          (subst (λ l. Online b2 m2 group_id l) erased left)
          (ap (λ u. lookup u b2.socket_map) (sym j.owned) ∙ gone))

  accepted :
      (ch : Ptr) (access_token server_id : Text) (userid group_id : ℕ) (s : Reading R D)
      (w : Remote R D) (c : Cluster R) (b : Bucket)
      → (access_token =text []) ≡ false
      → op.connect access_token server_id s.world ≡ some (ok userid, w)
      → (userid == 0) ≡ false
      → bucket city_hash32 userid s.ws ≡ some b
      → redis_get_string api (user_group_list userid) w.cache
        ≡ (ok (some (ids_json (group_id ∷ []))), c)
      → read_step api city_hash32 op ch server_id (received access_token true) s ≡ (
        goes_on,
        with_bucket api city_hash32 op userid
            (put_channel userid group_id ch b s.memory)
            (record s { world = record w { cache = c }; answers = s.answers + 1 }),
      )
  unfolding read_step put_all
  accepted ch access_token server_id userid group_id s w c b given called known at listed =
      rw (read_step, given, called, known, at, listed) refl

  -- A connection that stands in no list, of a user whose one group's list is well-formed and does not
  -- have it, from a request that is accepted to the end of the connection: the online members of the group
  -- are those from before, the user's bucket has no connection of the user, and the logic layer was told
  -- with DisConnect, once: the loop returns, in the state that DisConnect leaves, or panics where
  -- DisConnect does.
  pub read_pump-Left :
      (ch : Ptr) (access_token server_id : Text) (userid group_id : ℕ) (s : Reading R D)
      (w : Remote R D) (c : Cluster R) (b : Bucket) (xs : List Ptr)
      → group_id ≢ no_group
      → ch ≢ nil_ptr
      → (access_token =text []) ≡ false
      → op.connect access_token server_id s.world ≡ some (ok userid, w)
      → (userid == 0) ≡ false
      → elem ch xs ≡ false
      → (s.memory.channels ch).group_nodes ≡ []
      → bucket city_hash32 userid s.ws ≡ some b
      → redis_get_string api (user_group_list userid) w.cache
        ≡ (ok (some (ids_json (group_id ∷ []))), c)
      → Online b s.memory group_id xs
      → Left userid group_id xs
          (record w { cache = c })
          (read_pump api city_hash32 op ch server_id
            (received access_token true ∷ read_failed ∷ [])
            s)
  read_pump-Left ch access_token server_id userid group_id s w c b xs real nz given called known out
        new at listed on =
      let s' = record s { world = record w { cache = c }; answers = s.answers + 1 } in
      let joined =
        with_bucket api city_hash32 op userid (put_channel userid group_id ch b s.memory) s' in
      subst (Left userid group_id xs (record w { cache = c }))
        (sym (
          read_pump-ends api city_hash32 op ch server_id (received access_token true) s joined (
            accepted ch access_token server_id userid group_id s w c b given called known at
              listed)))
        (leave-Left ch userid group_id b xs s' real nz known out new at on)
