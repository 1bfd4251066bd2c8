-- ===== src/Manager/Transforms/History.antt =====
-- The queue of transforms against a log that is never cleared.
use mathlib.Core.Path.{subst}
use mathlib.Core.List.{append_assoc}
use volumetric_mapping.Common.{
  ℕ, ◌≡◌, refl, sym, ap, ◌∙◌, Option, inl, inr, List, [], ◌∷◌, ◌++◌, All, All-append, ◌≤◌, arith,
}
use volumetric_mapping.Platform.{Platform}
use volumetric_mapping.Manager.{Stamped, TransformQueue}
use volumetric_mapping.Manager.Transforms.{
  scan, finish_lookup, lookup_transform_queue, transform_callback,
}
use volumetric_mapping.Manager.Transforms.Matching.{
  IsStale, IsStale-later, scan-stale, finish_lookup_cleared, lookup_transform_queue_lem,
}

-- What reaches the queue: a transform message, or the request of a pose at a time.
pub data QueueEvent ⦃p : Platform⦄ : Type 0 where
  message : Stamped → QueueEvent
  request : ℕ → QueueEvent

module _ ⦃p : Platform⦄ where
  open p use {Transformation}

  -- The answers of the node, whose queue is cleared by the lookups.
  pub answers : List QueueEvent → TransformQueue → List (Option Transformation)
  answers [] q = []
  answers (message m ∷ es) q = answers es (transform_callback m q)
  answers (request t ∷ es) q = let r = lookup_transform_queue t q in r.1 ∷ answers es r.0

  -- The specification: the same requests to a log of all messages.
  pub log_answers : List QueueEvent → TransformQueue → List (Option Transformation)
  log_answers [] log = []
  log_answers (message m ∷ es) log = log_answers es (transform_callback m log)
  log_answers (request t ∷ es) log = (lookup_transform_queue t log).1 ∷ log_answers es log

  -- The requested times do not decrease.
  abbrev pub IsOrdered : ℕ → List QueueEvent → Type 0
  IsOrdered last [] = Unit
  IsOrdered last (message m ∷ es) = IsOrdered last es
  IsOrdered last (request t ∷ es) = (last ≤ t) × IsOrdered t es

  -- The queue is the log without messages that are too old for the times from `last` on.
  pub record Cleared (last : ℕ) (log q : TransformQueue) : Type 0 where
    pub gone : List Stamped
    pub split : log.transform_queue ≡ gone ++ q.transform_queue
    pub stale : All (IsStale log.timestamp_tolerance_ns last) gone
    pub same : q ≡ record log { transform_queue = q.transform_queue }

  pub Cleared-message :
      (last : ℕ) (log q : TransformQueue) (m : Stamped)
      → Cleared last log q
      → Cleared last (transform_callback m log) (transform_callback m q)
  unfolding transform_callback
  Cleared-message last log q m c = record {
    gone = c.gone;
    split = ap (λ ms. ms ++ m ∷ []) c.split ∙ append_assoc c.gone q.transform_queue (m ∷ []);
    stale = c.stale;
    same =
        ap (λ (r : TransformQueue). record r { transform_queue = q.transform_queue ++ m ∷ [] })
          c.same;
  }

  -- A lookup in the queue answers as one in the log.
  pub Cleared-answer :
      (last t : ℕ) (log q : TransformQueue)
      → last ≤ t
      → Cleared last log q
      → (lookup_transform_queue t q).1 ≡ (lookup_transform_queue t log).1
  unfolding lookup_transform_queue
  Cleared-answer last t log q le c =
      let tolerance = log.timestamp_tolerance_ns in
      let queue = q.transform_queue in
      let old =
        ap (scan tolerance t) c.split
        ∙ scan-stale tolerance t c.gone queue (IsStale-later tolerance last t c.gone le c.stale) in
      ap (λ (r : TransformQueue). (lookup_transform_queue t r).1) c.same
      ∙ (finish_lookup_cleared log queue (scan tolerance t queue)
          ∙ ap (λ x. (finish_lookup log x).1) (sym old))

  pub Cleared-request :
      (last t : ℕ) (log q : TransformQueue)
      → last ≤ t
      → Cleared last log q
      → Cleared t log (lookup_transform_queue t q).0
  Cleared-request last t log q le c =
      let tolerance = log.timestamp_tolerance_ns in
      let old = IsStale-later tolerance last t c.gone le c.stale in
      elim (lookup_transform_queue_lem t q) [
        | inl e ↦
            subst (λ (x : TransformQueue × Option Transformation). Cleared t log x.0) (sym e)
              (record { gone = c.gone; split = c.split; stale = old; same = c.same })
        | inr (r, e) ↦
            let dropped =
              subst (λ (s : TransformQueue). All (IsStale s.timestamp_tolerance_ns t) r.dropped)
                c.same r.stale in
            subst (λ (x : TransformQueue × Option Transformation). Cleared t log x.0) (sym e)
              (record {
                gone = c.gone ++ r.dropped;
                split =
                    c.split
                    ∙ (ap (λ ms. c.gone ++ ms) r.split
                        ∙ sym (append_assoc c.gone r.dropped (r.head ∷ r.rest)));
                stale = All-append (IsStale tolerance t) c.gone r.dropped old dropped;
                same =
                    ap (λ (s : TransformQueue). record s { transform_queue = r.head ∷ r.rest })
                      c.same;
              })
      ]

  Cleared-answers :
      (es : List QueueEvent) (last : ℕ) (log q : TransformQueue)
      → IsOrdered last es
      → Cleared last log q
      → answers es q ≡ log_answers es log
  unfolding answers log_answers
  Cleared-answers [] last log q o c = refl
  Cleared-answers (message m ∷ es) last log q o c =
      Cleared-answers es last (transform_callback m log) (transform_callback m q) o
        (Cleared-message last log q m c)
  Cleared-answers (request t ∷ es) last log q (le, o) c =
      let rest =
        Cleared-answers es t log (lookup_transform_queue t q).0 o
          (Cleared-request last t log q le c) in
      ground (arith, Cleared-answer last t log q le c, rest)

  -- For any interleaving of messages and requests whose requested times do not decrease, the node
  -- answers as a log of all messages would that never drops one.
  pub answers_refine :
      (es : List QueueEvent) (q : TransformQueue) → IsOrdered 0 es → answers es q ≡ log_answers es q
  answers_refine es q o =
      Cleared-answers es 0 q q o (record { gone = []; split = refl; stale = tt; same = refl })
