-- ===== src/Discovery/Watch.antt =====
-- The watch of etcd keeps the lists of every server id aligned.
use axis_chat_server.Prelude.{refl, Bool-cases, inl, inr, Option, Option-cases, List, [], ◌∷◌, Text}
use axis_chat_server.Discovery.Key.{server_id_of}
use axis_chat_server.Discovery.{
  ServiceDiscovery, Outcome, fine, crashed, new_service_discovery, set_service_list,
  del_service_list, Event, put_event, delete_event, and_then, handle_event, watcher, watch_service,
}
use axis_chat_server.Discovery.Aligned.{has}
use axis_chat_server.Discovery.Update.{IsAligned, set_at-IsAligned, del_at-IsAligned}

-- A step that panics leaves no state to speak of.
abbrev pub AlignedAfter : {I : Type 0} → Outcome (ServiceDiscovery I) → Type 0
AlignedAfter (fine s) = IsAligned s
AlignedAfter crashed = Unit

and_then-AlignedAfter :
    {I : Type 0} (o : Outcome (ServiceDiscovery I))
    (next : ServiceDiscovery I → Outcome (ServiceDiscovery I))
    → AlignedAfter o
    → ((s : ServiceDiscovery I) → IsAligned s → AlignedAfter (next s))
    → AlignedAfter (and_then o next)
and_then-AlignedAfter (fine s) next first rest = rest s first
and_then-AlignedAfter crashed next first rest = tt

new-IsAligned : (I : Type 0) → IsAligned {I = I} new_service_discovery
unfolding new_service_discovery
new-IsAligned I id = (refl, tt)

module _ {I : Type 0} (dial : Text → Option I) where
  set_service_list-AlignedAfter :
      (key val : Text) (s : ServiceDiscovery I)
      → IsAligned s
      → AlignedAfter (set_service_list dial key val s)
  unfolding set_service_list
  set_service_list-AlignedAfter key val s a = elim (Option-cases (server_id_of key)) [
    | inl bad ↦ rw (set_service_list, bad) tt
    | inr (id, good) ↦ rw (set_service_list, good) (set_at-IsAligned id key s a dial val).0
  ]

  del_service_list-AlignedAfter :
      (key : Text) (s : ServiceDiscovery I) → IsAligned s → AlignedAfter (del_service_list key s)
  unfolding del_service_list
  del_service_list-AlignedAfter key s a = elim (Option-cases (server_id_of key)) [
    | inl bad ↦ rw (del_service_list, bad) tt
    | inr (id, good) ↦
        let d = del_at-IsAligned id key s a in
        elim (Bool-cases (has key (s.server_key id))) [
          | inl there ↦
              let (s', ran, aligned, view) = rw there at d in
              rw (del_service_list, good, ran) aligned
          | inr gone ↦ let ran = rw gone at d in rw (del_service_list, good, ran) tt
        ]
  ]

  handle_event-AlignedAfter :
      (ev : Event) (s : ServiceDiscovery I) → IsAligned s → AlignedAfter (handle_event dial ev s)
  unfolding handle_event
  handle_event-AlignedAfter (put_event key val) s a = set_service_list-AlignedAfter key val s a
  handle_event-AlignedAfter (delete_event key) s a = del_service_list-AlignedAfter key s a

  watcher-AlignedAfter :
      (events : List Event) (s : ServiceDiscovery I)
      → IsAligned s
      → AlignedAfter (watcher dial events s)
  unfolding watcher
  watcher-AlignedAfter [] s a = a
  watcher-AlignedAfter (ev ∷ events) s a =
      and_then-AlignedAfter (handle_event dial ev s) (watcher dial events)
        (handle_event-AlignedAfter ev s a) (λ s' a'. watcher-AlignedAfter events s' a')

  watch_service-AlignedAfter :
      (kvs : List (Text × Text)) (s : ServiceDiscovery I)
      → IsAligned s
      → AlignedAfter (watch_service dial kvs s)
  unfolding watch_service
  watch_service-AlignedAfter [] s a = a
  watch_service-AlignedAfter ((key, val) ∷ kvs) s a =
      and_then-AlignedAfter (set_service_list dial key val s) (watch_service dial kvs)
        (set_service_list-AlignedAfter key val s a) (λ s' a'. watch_service-AlignedAfter kvs s' a')

  -- From a new discovery, the first keys and any sequence of events leave the lists of every server id
  -- aligned, unless one of them panics.
  pub watch-AlignedAfter :
      (kvs : List (Text × Text)) (events : List Event)
      → AlignedAfter (and_then (watch_service dial kvs new_service_discovery) (watcher dial events))
  watch-AlignedAfter kvs events =
      and_then-AlignedAfter (watch_service dial kvs new_service_discovery) (watcher dial events)
        (watch_service-AlignedAfter kvs new_service_discovery (new-IsAligned I))
        (λ s a. watcher-AlignedAfter events s a)
