-- ===== src/Session/Isolation.antt =====
-- internal/session/store.go: what the operations on one peer do to the sessions and files of others,
-- and what a reset does to the history.
use koios.Prelude.{
  ℕ, ◌≡◌, refl, ◌∙◌, ◌≢◌, ◌⊎◌, inl, inr, Bool, true, false, Option, some, List, [], ◌∷◌, arith,
  Option-cases, nat_eq, lookup, lookup-insert, lookup-delete, Text, text_eqb, text_eqb_iff, text_eq,
}
use koios.Types.{Message}
use koios.Redact
use koios.Session.Data.{Reader, Session, reset}
use koios.Session.Compaction.{prepare_compaction, execute_compaction}
use koios.Session.Append.{append_to_session}
use koios.Session.Lifecycle.{apply_lifecycle}
use koios.Session.Store.{
  Store, File, Env, get_or_load, get, put, open_session, append_ctx_with_source, reset_peer,
  delete_session, compact_now,
}

-- What one peer has: its loaded session and its file.
abbrev pub view_of : Text → Store → Option Session × Option File
view_of q st = (lookup q st.peers, lookup q st.files)

abbrev pub Untouched : Text → Store → Store → Type 0
Untouched q st st' =
    (lookup q st'.peers ≡ lookup q st.peers) × (lookup q st'.files ≡ lookup q st.files)

eqb_ne : (p q : Text) → p ≢ q → text_eqb p q ≡ false
eqb_ne p q h = ground (arith, text_eqb_iff p q)

put-Untouched : (p q : Text) (s : Session) (st : Store) → p ≢ q → Untouched q st (put p s st)
unfolding put
put-Untouched p q s st h =
    ground (arith, lookup-insert p q s st.peers, lookup-delete p q st.files, eqb_ne p q h)

-- An operation that first reaches a store that leaves `q` alone, then puts `p`'s session back.
then_put-Untouched :
    (p q : Text) (s : Session) (st st' : Store)
    → p ≢ q
    → Untouched q st st'
    → Untouched q st (put p s st')
then_put-Untouched p q s st st' h (x, y) = let (z, w) = put-Untouched p q s st' h in (z ∙ x, w ∙ y)

get_or_load-Untouched :
    (reload : Reader) (p q : Text) (st : Store) → p ≢ q → Untouched q st (get_or_load reload p st).0
unfolding get_or_load
get_or_load-Untouched reload p q st h = elim (Option-cases (lookup p st.peers)) [
  | inl e ↦ rw (e, get_or_load) (put-Untouched p q (open_session reload p st) st h)
  | inr (s, e) ↦ rw (e, get_or_load) (refl, refl)
]

get-Untouched : (env : Env) (p q : Text) (st : Store) → p ≢ q → Untouched q st (get env p st).0
unfolding get
get-Untouched env p q st h =
    let (st', s) = get_or_load env.reload p st in
    then_put-Untouched p q (apply_lifecycle env.cutover env.accepted st'.lifetimes env.now s).0 st
      st' h (get_or_load-Untouched env.reload p q st h)

append-Untouched :
    (env : Env) (p q source : Text) (ms : List Message) (st : Store)
    → p ≢ q
    → Untouched q st (append_ctx_with_source env p source ms st).0
unfolding append_ctx_with_source
append-Untouched env p q source [] st h = (refl, refl)
append-Untouched env p q source (m ∷ ms) st h =
    let (st', s) = get env p st in
    then_put-Untouched p q
      (append_to_session env.request_bytes env.accepted st'.limits env.answers env.now
        (Redact.messages env.scrub (m ∷ ms)) s)
      st st' h (get-Untouched env p q st h)

reset-Untouched :
    (accepted : Bool) (now : ℕ) (p q : Text) (st : Store)
    → p ≢ q
    → Untouched q st (reset_peer accepted now p st)
unfolding reset_peer
reset-Untouched accepted now p q st h = elim (Option-cases (lookup p st.peers)) [
  | inl e ↦ rw (e, reset_peer) (refl, refl)
  | inr (s, e) ↦ rw (e, reset_peer) (put-Untouched p q (reset accepted now s) st h)
]

delete-Untouched :
    (accepted : Bool) (p q : Text) (st : Store)
    → p ≢ q
    → Untouched q st (delete_session accepted p st).0
unfolding delete_session
delete-Untouched accepted p q st h = elim (Option-cases (lookup p st.peers)) [
  | inl e ↦ ground (arith, lookup-delete p q st.files, eqb_ne p q h)
  | inr (s, e) ↦ ground (
    arith,
    lookup-delete p q st.peers,
    eqb_ne p q h,
    lookup-insert p q (record { lines = s.journal; mod_time = s.last_activity }) st.files,
  )
]

compact-Untouched :
    (env : Env) (p q : Text) (st : Store) → p ≢ q → Untouched q st (compact_now env p st).0
unfolding compact_now
compact-Untouched env p q st h =
    let (st', s) = get env p st in
    let l = st'.limits in
    elim (Option-cases
      (prepare_compaction env.request_bytes l.compact_reserve l.has_compactor l.has_flusher s)) [
        | inl e ↦ rw (e, compact_now) (get-Untouched env p q st h)
        | inr (a, e) ↦
            rw (e, compact_now)
              (then_put-Untouched p q (execute_compaction env.accepted env.answers a s).0 st st' h
                (get-Untouched env p q st h))
      ]

-- Each operation on the session of peer `p` leaves the session and the file of every other peer as
-- they were: reading, appending, resetting, deleting and compacting.
pub peers_isolated :
    (env : Env) (p q source : Text) (ms : List Message) (st : Store)
    → p ≢ q
    → Untouched q st (get env p st).0
      × Untouched q st (append_ctx_with_source env p source ms st).0
      × Untouched q st (reset_peer env.accepted env.now p st)
      × Untouched q st (delete_session env.accepted p st).0
      × Untouched q st (compact_now env p st).0
peers_isolated env p q source ms st h = (
  get-Untouched env p q st h,
  append-Untouched env p q source ms st h,
  reset-Untouched env.accepted env.now p q st h,
  delete-Untouched env.accepted p q st h,
  compact-Untouched env p q st h,
)

-- Where the file system accepts the write, resetting a peer whose session is loaded empties its
-- history in memory and, if the session has one, in its file.
pub reset_peer_loaded :
    (reload : Reader) (now : ℕ) (p : Text) (st : Store) (s : Session)
    → lookup p st.peers ≡ some s
    → let s' = (get_or_load reload p (reset_peer true now p st)).1 in
      (s'.messages ≡ []) × (s.persisted ≡ false ⊎ s'.journal ≡ [])
unfolding get_or_load reset_peer put reset
reset_peer_loaded reload now p st s e =
    ground (arith, lookup-insert p p (reset true now s) st.peers, text_eqb_iff p p)
