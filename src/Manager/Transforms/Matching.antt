-- ===== src/Manager/Transforms/Matching.antt =====
-- The search for a transform in the queue.
use mathlib.Core.Path.{subst}
use volumetric_mapping.Common.{
  ℕ, ◌+◌, ◌-◌, ◌≤◌, ◌<◌, ◌≡◌, ◌≢◌, refl, ap, sym, ◌∙◌, ◌↔◌, ◌⊎◌, inl, inr, Bool, Bool-cases, true,
  false, Option, none, some, List, [], ◌∷◌, ◌++◌, All, Any, ltb, arith,
}
use volumetric_mapping.Platform.{Platform}
use volumetric_mapping.Manager.{Stamped, TransformQueue}
use volumetric_mapping.Manager.Transforms.{scan, chain, finish_lookup, lookup_transform_queue}

module _ ⦃p : Platform⦄ where
  open p use {Transformation}

  -- The stamp is less than the tolerance away from the time, on either side.
  abbrev pub IsNear : ℕ → ℕ → Stamped → Type 0
  IsNear tolerance timestamp m =
      (m.stamp < timestamp + tolerance) × (timestamp < m.stamp + tolerance)

  -- So old that no later request can match it either.
  abbrev pub IsStale : ℕ → ℕ → Stamped → Type 0
  IsStale tolerance timestamp m = m.stamp + tolerance ≤ timestamp

  abbrev pub IsSorted : List Stamped → Type 0
  IsSorted [] = Unit
  IsSorted (m ∷ ms) = All (λ n. m.stamp ≤ n.stamp) ms × IsSorted ms

  -- A match: what was passed over is stale, and the head of the rest is near.
  pub record Match (tolerance timestamp : ℕ) (queue : List Stamped) : Type 0 where
    pub dropped : List Stamped
    pub head : Stamped
    pub rest : List Stamped
    pub split : queue ≡ dropped ++ head ∷ rest
    pub stale : All (IsStale tolerance timestamp) dropped
    pub near : IsNear tolerance timestamp head
    pub result : scan tolerance timestamp queue ≡ (true, head ∷ rest)

  scan-Match :
      (tolerance timestamp : ℕ) (queue : List Stamped)
      → (scan tolerance timestamp queue).0 ≡ true
      → Match tolerance timestamp queue
  unfolding scan
  scan-Match tolerance timestamp [] h = cc
  scan-Match tolerance timestamp (m ∷ rest) h = elim (Bool-cases (ltb timestamp m.stamp)) [
    | inl later ↦ record {
      dropped = [];
      head = m;
      rest = rest;
      split = refl;
      stale = tt;
      near = ground arith;
      result = ground arith;
    }
    | inr earlier ↦ elim (Bool-cases (ltb (timestamp - m.stamp) tolerance)) [
      | inl near ↦ record {
        dropped = [];
        head = m;
        rest = rest;
        split = refl;
        stale = tt;
        near = ground arith;
        result = ground arith;
      }
      | inr far ↦
          let r = scan-Match tolerance timestamp rest (ground arith) in
          record {
            dropped = m ∷ r.dropped;
            head = r.head;
            rest = r.rest;
            split = ap (◌∷◌ m) r.split;
            stale = (ground arith, r.stale);
            near = r.near;
            result = ground (arith, r.result);
          }
    ]
  ]

  -- In a sorted queue no transform that is near is missed.
  none_later :
      (tolerance timestamp : ℕ) (m : Stamped) (queue : List Stamped)
      → All (λ n. m.stamp ≤ n.stamp) queue
      → timestamp + tolerance ≤ m.stamp
      → ¬ Any (IsNear tolerance timestamp) queue
  none_later tolerance timestamp m [] ls h a = absurd a
  none_later tolerance timestamp m (n ∷ ns) (l, ls) h (inl near) = absurd (omega arith)
  none_later tolerance timestamp m (n ∷ ns) (l, ls) h (inr a) =
      none_later tolerance timestamp m ns ls h a

  scan-near :
      (tolerance timestamp : ℕ) (queue : List Stamped)
      → IsSorted queue
      → Any (IsNear tolerance timestamp) queue
      → (scan tolerance timestamp queue).0 ≡ true
  unfolding scan
  scan-near tolerance timestamp [] s a = absurd a
  scan-near tolerance timestamp (m ∷ rest) (ls, s) (inl near) = ground arith
  scan-near tolerance timestamp (m ∷ rest) (ls, s) (inr a) = ground (
    arith,
    λ (h : timestamp + tolerance ≤ m.stamp). none_later tolerance timestamp m rest ls h a,
    scan-near tolerance timestamp rest s a,
  )

  pub scan-stale :
      (tolerance timestamp : ℕ) (dropped queue : List Stamped)
      → All (IsStale tolerance timestamp) dropped
      → scan tolerance timestamp (dropped ++ queue) ≡ scan tolerance timestamp queue
  unfolding scan
  scan-stale tolerance timestamp [] queue h = refl
  scan-stale tolerance timestamp (m ∷ ms) queue (h, hs) =
      ground (arith, scan-stale tolerance timestamp ms queue hs)

  pub IsStale-later :
      (tolerance timestamp timestamp' : ℕ) (ms : List Stamped)
      → timestamp ≤ timestamp'
      → All (IsStale tolerance timestamp) ms
      → All (IsStale tolerance timestamp') ms
  IsStale-later tolerance timestamp timestamp' [] le h = tt
  IsStale-later tolerance timestamp timestamp' (m ∷ ms) le (h, hs) =
      (omega arith, IsStale-later tolerance timestamp timestamp' ms le hs)

  Any-append : (P : Stamped → Type 0) (ms ns : List Stamped) → Any P ns → Any P (ms ++ ns)
  Any-append P [] ns a = a
  Any-append P (m ∷ ms) ns a = inr (Any-append P ms ns a)

  -- The transform that is found does not depend on the queue that is kept.
  pub finish_lookup_cleared :
      (q : TransformQueue) (ms : List Stamped) (result : Bool × List Stamped)
      → (finish_lookup (record q { transform_queue = ms }) result).1 ≡ (finish_lookup q result).1
  unfolding finish_lookup chain
  finish_lookup_cleared q ms (true, m ∷ rest) = refl
  finish_lookup_cleared q ms (true, []) = refl
  finish_lookup_cleared q ms (false, rest) = refl

  module _ (timestamp : ℕ) (q : TransformQueue) where
    -- The match in the queue of the node.
    abbrev pub QueueMatch : Type 0
    QueueMatch = Match q.timestamp_tolerance_ns timestamp q.transform_queue

    -- What the lookup gives for a match.
    abbrev pub matched : QueueMatch → TransformQueue × Option Transformation
    matched r = (record q { transform_queue = r.head ∷ r.rest }, some (chain q r.head.transform))

    -- `lookupTransformQueue` either fails and leaves the queue unchanged, or finds a message whose
    -- stamp is less than the tolerance away from the requested time, drops exactly the messages
    -- before it, each of which is at least the tolerance older than the requested time, and returns
    -- the transform chained with the two static ones.
    pub lookup_transform_queue_lem :
        (lookup_transform_queue timestamp q ≡ (q, none))
        ⊎ ((r : QueueMatch) × (lookup_transform_queue timestamp q ≡ matched r))
    unfolding lookup_transform_queue finish_lookup
    lookup_transform_queue_lem =
        elim (Bool-cases (scan q.timestamp_tolerance_ns timestamp q.transform_queue).0) [
          | inl found ↦
              let r = scan-Match q.timestamp_tolerance_ns timestamp q.transform_queue found in
              inr (r, ground (arith, r.result))
          | inr missed ↦ inl (ground arith)
        ]

    -- If the queue is sorted by time stamp, `lookupTransformQueue` succeeds exactly if some message
    -- of the queue is less than the tolerance away from the requested time.
    pub lookup_transform_queue_complete :
        IsSorted q.transform_queue
        → ((lookup_transform_queue timestamp q).1 ≢ none)
          ↔ Any (IsNear q.timestamp_tolerance_ns timestamp) q.transform_queue
    unfolding lookup_transform_queue finish_lookup
    lookup_transform_queue_complete s = (
      λ h. elim lookup_transform_queue_lem [
        | inl e ↦ absurd (h (ap (λ (x : TransformQueue × Option Transformation). x.1) e))
        | inr (r, e) ↦
            let P = IsNear q.timestamp_tolerance_ns timestamp in
            subst (λ ms. Any P ms) (sym r.split)
              (Any-append P r.dropped (r.head ∷ r.rest) (inl r.near))
      ],
      λ a e.
          let found = scan-near q.timestamp_tolerance_ns timestamp q.transform_queue s a in
          let r = scan-Match q.timestamp_tolerance_ns timestamp q.transform_queue found in
          absurd (ground (arith, r.result, e)),
    )

    -- The messages that a lookup drops do not matter to a lookup at the same or a later time: it
    -- returns the same with and without the first lookup.
    lookup_transform_queue_later :
        (timestamp' : ℕ)
        → timestamp ≤ timestamp'
        → (lookup_transform_queue timestamp' (lookup_transform_queue timestamp q).0).1
          ≡ (lookup_transform_queue timestamp' q).1
    unfolding lookup_transform_queue
    lookup_transform_queue_later timestamp' le = elim lookup_transform_queue_lem [
      | inl e ↦
          ap
            (λ (x : TransformQueue × Option Transformation).
              (lookup_transform_queue timestamp' x.0).1)
            e
      | inr (r, e) ↦
          let tolerance = q.timestamp_tolerance_ns in
          let cleared =
            ap (scan tolerance timestamp') r.split
            ∙ scan-stale tolerance timestamp' r.dropped (r.head ∷ r.rest)
                (IsStale-later tolerance timestamp timestamp' r.dropped le r.stale) in
          ap
            (λ (x : TransformQueue × Option Transformation).
              (lookup_transform_queue timestamp' x.0).1)
            e
          ∙ (finish_lookup_cleared q (r.head ∷ r.rest) (scan tolerance timestamp' (r.head ∷ r.rest))
              ∙ ap (λ x. (finish_lookup q x).1) (sym cleared))
    ]
