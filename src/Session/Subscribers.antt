-- ===== src/Session/Subscribers.antt =====
-- internal/session/store.go: who is told of an append, after `Subscribe` and its cancel function.
use koios.Prelude.{
  ℕ, ◌+◌, ◌≤◌, ◌≡◌, refl, ap, inl, inr, not, none, some, List, [], ◌∷◌, map, arith, nat_eqb,
  if◌then◌else◌, Option-cases, nat_eq, keep, All, lookup, lookup-insert, lookup-delete, Text,
  text_eqb, text_eqb_iff, text_eq, is_empty_iff,
}
use koios.Session.Store.{Store, AppendEvent, notify_append, subscribe, unsubscribe}

-- The subscribers of a peer.
abbrev pub subscribers_of : Text → Store → List ℕ
subscribers_of peer st = elim (lookup peer st.subscribers) [ some ids ↦ ids | none ↦ [] ]

keep_other :
    (n : ℕ) (ids : List ℕ) → All (λ i. i ≤ n) ids → keep (λ i. not (nat_eqb i (n + 1))) ids ≡ ids
keep_other n [] h = refl
keep_other n (i ∷ ids) (le, h) = ground (arith, keep_other n ids h)

subscribe_lem :
    (peer q : Text) (st : Store)
    → subscribers_of q (subscribe peer st).0 ≡ (
        if text_eqb peer q
        then (st.next_sub_id + 1) ∷ subscribers_of peer st
        else subscribers_of q st)
unfolding subscribe
subscribe_lem peer q st = ground (
  arith,
  lookup-insert peer q ((st.next_sub_id + 1) ∷ subscribers_of peer st) st.subscribers,
  text_eqb_iff peer q,
)

subscribe_id : (peer : Text) (st : Store) → (subscribe peer st).1 ≡ st.next_sub_id + 1
unfolding subscribe
subscribe_id peer st = refl

unsubscribe_lem :
    (peer q : Text) (id : ℕ) (st : Store)
    → subscribers_of q (unsubscribe peer id st) ≡ (
        if text_eqb peer q
        then keep (λ i. not (nat_eqb i id)) (subscribers_of peer st)
        else subscribers_of q st)
unfolding unsubscribe
unsubscribe_lem peer q id st =
    let rest = keep (λ i. not (nat_eqb i id)) (subscribers_of peer st) in
    elim (Option-cases (lookup peer st.subscribers)) [
      | inl e ↦ ground (arith, text_eqb_iff peer q)
      | inr (ids, e) ↦ ground (
        arith,
        lookup-insert peer q rest st.subscribers,
        lookup-delete peer q st.subscribers,
        is_empty_iff rest,
        text_eqb_iff peer q,
      )
    ]

notify_of :
    (ev : AppendEvent) (st : Store)
    → notify_append ev st ≡ map (λ i. (i, ev)) (subscribers_of ev.peer_id st)
unfolding notify_append
notify_of ev st = ground arith

-- Where no subscriber of the peer has a number above the last one given out: a new subscriber is
-- told of the appends to its peer, besides those told before, and of no others; once it has
-- cancelled, exactly those are told that were told before it came.
pub subscribe-unsubscribe :
    (peer : Text) (ev : AppendEvent) (st : Store)
    → All (λ i. i ≤ st.next_sub_id) (subscribers_of peer st)
    → let (st', id) = subscribe peer st in
      (notify_append ev st' ≡ (
        if text_eqb peer ev.peer_id then (id, ev) ∷ notify_append ev st else notify_append ev st))
      × (notify_append ev (unsubscribe peer id st') ≡ notify_append ev st)
subscribe-unsubscribe peer ev st h =
    let st' = (subscribe peer st).0 in
    let id = (subscribe peer st).1 in
    let n : id ≡ st.next_sub_id + 1 = subscribe_id peer st in
    (
      ground (
        arith,
        notify_of ev st,
        notify_of ev st',
        subscribe_lem peer ev.peer_id st,
        n,
        text_eqb_iff peer ev.peer_id,
        ap (λ x. subscribers_of x st) {x = peer} {y = ev.peer_id},
      ),
      ground (
        arith,
        notify_of ev st,
        notify_of ev (unsubscribe peer id st'),
        unsubscribe_lem peer ev.peer_id id st',
        subscribe_lem peer peer st,
        subscribe_lem peer ev.peer_id st,
        keep_other st.next_sub_id (subscribers_of peer st) h,
        n,
        text_eqb_iff peer peer,
        text_eqb_iff peer ev.peer_id,
      ),
    )
