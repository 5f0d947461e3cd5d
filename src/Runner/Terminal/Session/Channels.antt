-- ===== src/Runner/Terminal/Session/Channels.antt =====
-- The channels of a TerminalSession (services/runner/internal/engine/terminal_sessions.go): Go panics
-- where a channel is closed twice or sent to when it is closed.
use mathlib.Core.Path.{subst}
use git_gym.Prelude.{
  ◌⊎◌, ◌↔◌, ℕ, suc, ◌≡◌, ◌≢◌, ◌<◌, refl, ap, sym, inl, inr, true, Option, none, some, List, [], ◌∷◌,
  ◌++◌, arith, Bool-cases, Option-cases, All, All-imp,
}
use git_gym.Prelude.Text.{Text}
use git_gym.Prelude.Map.{
  lookup, insert, erase, UniqueKeys, insert-UniqueKeys, erase-UniqueKeys, lookup-insert,
  lookup-erase,
}
use git_gym.Runner.Terminal.Session.{
  Session, TerminalError, keys, send_all, finish, subscribe, unsubscribe, broadcast,
}

-- No number stands twice.
abbrev pub IsDistinct : List ℕ → Type 0
IsDistinct [] = Unit
IsDistinct (id ∷ ids) = All (λ k. k ≢ id) ids × IsDistinct ids

-- The channels that are closed were handed out, each was closed once, and none of them is still
-- subscribed; a channel that is subscribed was handed out.
pub record ChannelsInv (s : Session) : Type 0 where
  pub unique : UniqueKeys s.subscribers
  pub below : (k : ℕ) (sent : List Text) → lookup k s.subscribers ≡ some sent → k < s.next_id
  pub once : IsDistinct s.closed_channels
  pub gone : All (λ k. (k < s.next_id) × (lookup k s.subscribers ≡ none)) s.closed_channels

abbrev added : Session → Session
added s = record s { next_id = suc s.next_id; subscribers = insert s.next_id [] s.subscribers }

added-ChannelsInv : (s : Session) → ChannelsInv s → ChannelsInv (added s)
added-ChannelsInv s v = record {
  unique = insert-UniqueKeys s.next_id [] s.subscribers v.unique;
  below = λ k sent h. ground (arith, v.below k sent, lookup-insert s.next_id k [] s.subscribers);
  once = v.once;
  gone =
      All-imp _ _ s.closed_channels
        (λ k h. ground (arith, lookup-insert s.next_id k [] s.subscribers)) v.gone;
}

subscribe_cases : (s : Session) → ((subscribe s).1 ≡ s) ⊎ ((subscribe s).1 ≡ added s)
unfolding subscribe
subscribe_cases s = elim (Bool-cases s.closed) [
  | inl ended ↦ inl (ground arith)
  | inr running ↦ inr (ground arith)
]

pub subscribe-ChannelsInv : (s : Session) → ChannelsInv s → ChannelsInv (subscribe s).1
subscribe-ChannelsInv s v = elim (subscribe_cases s) [
  | inl same ↦ subst ChannelsInv (sym same) v
  | inr more ↦ subst ChannelsInv (sym more) (added-ChannelsInv s v)
]

abbrev dropped : ℕ → Session → Session
dropped id s = record s {
  subscribers = erase id s.subscribers;
  closed_channels = id ∷ s.closed_channels;
}

dropped-ChannelsInv :
    (id : ℕ) (sent : List Text) (s : Session)
    → lookup id s.subscribers ≡ some sent
    → ChannelsInv s
    → ChannelsInv (dropped id s)
dropped-ChannelsInv id sent s e v = record {
  unique = erase-UniqueKeys id s.subscribers v.unique;
  below = λ k other h. ground (arith, v.below k other, lookup-erase id k s.subscribers);
  once = (
    All-imp _ _ s.closed_channels
        (λ k h same. absurd (ground (arith, ap (λ j. lookup j s.subscribers) same))) v.gone,
    v.once,
  );
  gone = (
    ground (arith, v.below id sent e, lookup-erase id id s.subscribers),
    All-imp _ _ s.closed_channels (λ k h. ground (arith, lookup-erase id k s.subscribers)) v.gone,
  );
}

pub unsubscribe-ChannelsInv :
    (id : ℕ) (s : Session) → ChannelsInv s → ChannelsInv (unsubscribe id s)
unfolding unsubscribe
unsubscribe-ChannelsInv id s v = elim (Option-cases (lookup id s.subscribers)) [
  | inl e ↦ let same : unsubscribe id s ≡ s = ground (arith, e) in subst ChannelsInv (sym same) v
  | inr (sent, e) ↦
      let same : unsubscribe id s ≡ dropped id s = ground (arith, e) in
      subst ChannelsInv (sym same) (dropped-ChannelsInv id sent s e v)
]

lookup-send_all :
    (chunk : Text) (k : ℕ) (m : List (ℕ × List Text))
    → lookup k (send_all chunk m) ≡ none ↔ (lookup k m ≡ none)
unfolding lookup send_all
lookup-send_all chunk k [] = ground arith
lookup-send_all chunk k ((id, sent) ∷ m) = ground (arith, lookup-send_all chunk k m)

send_all-UniqueKeys :
    (chunk : Text) (m : List (ℕ × List Text)) → UniqueKeys m → UniqueKeys (send_all chunk m)
unfolding send_all
send_all-UniqueKeys chunk [] u = tt
send_all-UniqueKeys chunk ((id, sent) ∷ m) u =
    ground (arith, lookup-send_all chunk id m, send_all-UniqueKeys chunk m u.1)

sent-ChannelsInv :
    (chunk : Text) (s : Session)
    → ChannelsInv s
    → ChannelsInv (record s { subscribers = send_all chunk s.subscribers })
sent-ChannelsInv chunk s v = record {
  unique = send_all-UniqueKeys chunk s.subscribers v.unique;
  below = λ k sent h. elim (Option-cases (lookup k s.subscribers)) [
    | inl e ↦ absurd (ground (arith, lookup-send_all chunk k s.subscribers))
    | inr (old, e) ↦ v.below k old e
  ];
  once = v.once;
  gone =
      All-imp _ _ s.closed_channels (λ k h. ground (arith, lookup-send_all chunk k s.subscribers))
        v.gone;
}

pub broadcast-ChannelsInv :
    (chunk : Text) (s : Session) → ChannelsInv s → ChannelsInv (broadcast chunk s)
unfolding broadcast
broadcast-ChannelsInv chunk s v = elim (Bool-cases s.closed) [
  | inl ended ↦ let same : broadcast chunk s ≡ s = ground arith in subst ChannelsInv (sym same) v
  | inr running ↦
      let more : broadcast chunk s ≡ record s { subscribers = send_all chunk s.subscribers } =
        ground arith in
      subst ChannelsInv (sym more) (sent-ChannelsInv chunk s v)
]

All-append : (P : ℕ → Type 0) (xs ys : List ℕ) → All P xs → All P ys → All P (xs ++ ys)
All-append P [] ys h h' = h'
All-append P (x ∷ xs) ys h h' = (h.0, All-append P xs ys h.1 h')

-- A number without a channel is not among the keys.
not_key : (id : ℕ) (m : List (ℕ × List Text)) → lookup id m ≡ none → All (λ k. k ≢ id) (keys m)
unfolding lookup keys
not_key id [] h = tt
not_key id ((k, sent) ∷ m) h = (ground arith, not_key id m (ground arith))

keys-IsDistinct :
    (m : List (ℕ × List Text)) (ids : List ℕ)
    → UniqueKeys m
    → IsDistinct ids
    → All (λ k. lookup k m ≡ none) ids
    → IsDistinct (keys m ++ ids)
unfolding lookup keys
keys-IsDistinct [] ids u d h = d
keys-IsDistinct ((id, sent) ∷ m) ids u d h = (
  All-append _ (keys m) ids (not_key id m u.0) (All-imp _ _ ids (λ k e. ground arith) h),
  keys-IsDistinct m ids u.1 d (All-imp _ _ ids (λ k e. ground arith) h),
)

keys_below :
    (n : ℕ) (m : List (ℕ × List Text))
    → UniqueKeys m
    → ((k : ℕ) (sent : List Text) → lookup k m ≡ some sent → k < n)
    → All (λ k. (k < n) × (lookup {V = List Text} k [] ≡ none)) (keys m)
unfolding lookup keys
keys_below n [] u below = tt
keys_below n ((id, sent) ∷ m) u below = (
  (below id sent (ground arith), refl),
  keys_below n m u.1 (λ k other h. below k other (ground (arith, u.0))),
)

abbrev all_closed : Option TerminalError → Session → Session
unfolding keys
all_closed error s = record s {
  closed = true;
  close_err = error;
  subscribers = [];
  closed_channels = keys s.subscribers ++ s.closed_channels;
  done_once = true;
}

all_closed-ChannelsInv :
    (error : Option TerminalError) (s : Session) → ChannelsInv s → ChannelsInv (all_closed error s)
unfolding all_closed lookup
all_closed-ChannelsInv error s v = record {
  unique = tt;
  below = λ k sent h. absurd (ground arith);
  once =
      keys-IsDistinct s.subscribers s.closed_channels v.unique v.once
        (All-imp _ _ s.closed_channels (λ k h. h.1) v.gone);
  gone =
      All-append _ (keys s.subscribers) s.closed_channels
        (keys_below s.next_id s.subscribers v.unique v.below)
        (All-imp _ _ s.closed_channels (λ k h. (h.0, refl)) v.gone);
}

pub finish-ChannelsInv :
    (error : Option TerminalError) (s : Session) → ChannelsInv s → ChannelsInv (finish error s)
unfolding finish all_closed
finish-ChannelsInv error s v = elim (Bool-cases s.done_once) [
  | inl done ↦ let same : finish error s ≡ s = ground arith in subst ChannelsInv (sym same) v
  | inr fresh ↦
      let ended : finish error s ≡ all_closed error s = ground arith in
      subst ChannelsInv (sym ended) (all_closed-ChannelsInv error s v)
]
