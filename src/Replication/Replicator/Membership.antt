-- ===== src/Replication/Replicator/Membership.antt =====
-- Sessions and transports that come and go, and what is asked of the sessions after them.
use cube_core.Base.Keys.{nat_key}
use cube_core.Replication.Session.Calls.{the_state}
use cube_core.Base.{◌==◌, if_cases, subst, ℕ, Bool, [], Option, inl, inr, Option-cases}
use cube_core.Base.Results.{Result-cases}
use cube_core.Base.Maps.{find}
use cube_core.Replication.Types.{Limits, SessionInfo}
use cube_core.Replication.Session.{new_session_state}
use cube_core.Replication.Replicator.{Replicator, Transport}
use cube_core.Replication.Replicator.Sessions.{
  close_place, close_all, infos_of, register_all_sessions, transport_register, same_transport,
  Outcome, register_session, remove_session, set_transport, close_replicator,
}
use cube_core.Replication.Replicator.Invariant.{
  force_full_all-IsStore, first_state-IsGood, delete-IsStore, none-IsStore, close_place-IsStore,
  add-IsStore, close_all-IsStore, IsGood,
}
use cube_core.Replication.Replicator.Keeping.{IsSound}

module _ {W : Type 0} where
  pub register_session-IsSound :
      (l : Limits) (r : Replicator W) (info : SessionInfo)
      → IsSound l r
      → IsSound l (register_session r info).0
  unfolding register_session
  register_session-IsSound l r info v = elim (Result-cases (new_session_state info)) [
    | inr (e, a) ↦ rw (a, register_session) v
    | inl (state, a) ↦
        rw (a, register_session)
          (if_cases (λ (o : Outcome W). IsSound l o.0) r.closed (λ shut. v)
            λ open_. elim (Option-cases (find info.id r.sessions)) [
              | inr (place, b) ↦ rw b v
              | inl b ↦ elim (Result-cases (transport_register r.transport r.wire info).1) [
                | inr (e, c) ↦ rw (b, c) (record { limited = v.limited; stored = v.stored })
                | inl (u, c) ↦
                    rw (b, c)
                      (record {
                        limited = v.limited;
                        stored =
                            add-IsStore l r.sessions r.store v.stored info.id r.next_place state (
                              subst (IsGood l) (the_state info state a)
                                (first_state-IsGood l info));
                      })
              ]
            ])
  ]

  pub remove_session-IsSound :
      (l : Limits) (r : Replicator W) (id : ℕ) → IsSound l r → IsSound l (remove_session r id).0
  unfolding remove_session
  remove_session-IsSound l r id v =
      if_cases (λ (o : Replicator W × Bool). IsSound l o.0) (id == 0) (λ nobody. v)
        λ somebody. elim (Option-cases (find id r.sessions)) [
          | inl a ↦ rw (a, remove_session) v
          | inr (place, a) ↦
              let w = close_place-IsStore l r.sessions r.store v.stored place in
              rw (a, remove_session)
                (record {
                  limited = v.limited;
                  stored = delete-IsStore l r.sessions (close_place r.store place) w id;
                })
        ]

  pub set_transport-IsSound :
      (l : Limits) (r : Replicator W) (t : Option (Transport W))
      → IsSound l r
      → IsSound l (set_transport r t).0
  unfolding set_transport
  set_transport-IsSound l r t v =
      if_cases (λ (o : Outcome W). IsSound l o.0) r.closed (λ shut. v)
        λ open_.
          if_cases (λ (o : Outcome W). IsSound l o.0) (same_transport r.transport t) (λ same. v)
            λ new.
              elim (Result-cases
                (register_all_sessions t r.wire [] (infos_of r.sessions r.store)).1) [
                  | inr (e, a) ↦
                      rw (a, set_transport) (record { limited = v.limited; stored = v.stored })
                  | inl (u, a) ↦
                      rw (a, set_transport)
                        (record {
                          limited = v.limited;
                          stored = force_full_all-IsStore l r.sessions r.sessions r.store v.stored;
                        })
                ]

  pub close_replicator-IsSound :
      (l : Limits) (r : Replicator W) → IsSound l r → IsSound l (close_replicator r)
  unfolding close_replicator
  close_replicator-IsSound l r v =
      if_cases (IsSound l) r.closed (λ shut. v)
        λ open_.
          let w = close_all-IsStore l r.sessions r.sessions r.store v.stored in
          record {
            limited = v.limited;
            stored = none-IsStore l r.sessions (close_all r.sessions r.store) w;
          }
