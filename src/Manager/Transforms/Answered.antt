-- ===== src/Manager/Transforms/Answered.antt =====
-- Which requests of a pose find one, in terms of all transforms that were received.
use mathlib.Core.List.{append-nil, append_assoc}
use volumetric_mapping.Common.{
  ℕ, ◌≡◌, ◌≢◌, ◌↔◌, refl, sym, ◌∙◌, ap, none, List, [], ◌∷◌, ◌++◌, Any, ◌≤◌,
}
use volumetric_mapping.Platform.{Platform}
use volumetric_mapping.Manager.{Stamped, TransformQueue}
use volumetric_mapping.Manager.Transforms.{lookup_transform_queue, transform_callback}
use volumetric_mapping.Manager.Transforms.Matching.{
  IsNear, IsSorted, lookup_transform_queue_complete,
}
use volumetric_mapping.Manager.Transforms.History.{
  QueueEvent, message, request, Cleared, Cleared-message, Cleared-answer, Cleared-request,
}

module _ ⦃p : Platform⦄ where
  open p use {Transformation}

  -- The queue of the node after messages and requests.
  pub queue_after : List QueueEvent → TransformQueue → TransformQueue
  queue_after [] q = q
  queue_after (message m ∷ es) q = queue_after es (transform_callback m q)
  queue_after (request t ∷ es) q = queue_after es (lookup_transform_queue t q).0

  -- All messages: those of the queue at first, and those received since.
  abbrev pub received : List QueueEvent → List Stamped
  received [] = []
  received (message m ∷ es) = m ∷ received es
  received (request t ∷ es) = received es

  abbrev with_queue : TransformQueue → List Stamped → TransformQueue
  with_queue q ms = record q { transform_queue = ms }

  -- The requested times do not decrease, from `last` up to `time`.
  abbrev pub IsOrderedUpTo : ℕ → ℕ → List QueueEvent → Type 0
  IsOrderedUpTo time last [] = last ≤ time
  IsOrderedUpTo time last (message m ∷ es) = IsOrderedUpTo time last es
  IsOrderedUpTo time last (request t ∷ es) = (last ≤ t) × IsOrderedUpTo time t es

  queue_after-answer :
      (time : ℕ) (es : List QueueEvent) (last : ℕ) (log q : TransformQueue)
      → IsOrderedUpTo time last es
      → Cleared last log q
      → (lookup_transform_queue time (queue_after es q)).1
        ≡ (lookup_transform_queue time (with_queue log (log.transform_queue ++ received es))).1
  unfolding queue_after transform_callback
  queue_after-answer time [] last log q o c =
      Cleared-answer last time log q o c
      ∙ ap (λ ms. (lookup_transform_queue time (with_queue log ms)).1)
          (sym (append-nil log.transform_queue))
  queue_after-answer time (message m ∷ es) last log q o c =
      queue_after-answer time es last (transform_callback m log) (transform_callback m q) o
        (Cleared-message last log q m c)
      ∙ ap (λ ms. (lookup_transform_queue time (with_queue log ms)).1)
          (append_assoc log.transform_queue (m ∷ []) (received es))
  queue_after-answer time (request t ∷ es) last log q (le, o) c =
      queue_after-answer time es t log (lookup_transform_queue t q).0 o
        (Cleared-request last t log q le c)

  -- If the requested times do not decrease and all messages, those at first in the queue and those
  -- received since, are in the order of their time stamps, then a request finds a pose exactly if
  -- some message of all these is less than the tolerance away from the requested time, although the
  -- requests before it have removed messages.
  pub queue_after-IsNear :
      (es : List QueueEvent) (q : TransformQueue) (time : ℕ)
      → IsOrderedUpTo time 0 es
      → IsSorted (q.transform_queue ++ received es)
      → ((lookup_transform_queue time (queue_after es q)).1 ≢ none)
        ↔ Any (IsNear q.timestamp_tolerance_ns time) (q.transform_queue ++ received es)
  queue_after-IsNear es q time o sorted =
      let same =
        queue_after-answer time es 0 q q o
          (record { gone = []; split = refl; stale = tt; same = refl }) in
      let all = with_queue q (q.transform_queue ++ received es) in
      rw same (lookup_transform_queue_complete time all sorted)
