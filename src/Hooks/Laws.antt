-- ===== src/Hooks/Laws.antt =====
-- What a dispatch does to the subscribers and what it reports.
use mathlib.Core.List.{append_assoc, append-nil}
use sannad.Prelude.{
  String, true, false, ◌≢◌, ◌⊎◌, Option, none, some, List, [], ◌∷◌, ◌++◌, ◌≡◌, refl, ap, arith,
  Option-cases, inl, inr, ◌∙◌,
}
use sannad.Hooks.{
  HookKind, Ref, key, HookPoint, Rejection, Error, invalid_hook_point, hook_not_offered,
  hook_already_offered, other, subscriber_failed, rejected, Value, Subscription,
}
use sannad.Hooks.Registry.{OfferedPoint, Registry, subscribers_of}
use sannad.Hooks.Dispatch.{
  Reply, same_kind, is_closed, apply_policy, as_rejection, invoke, notify_all, validate_all,
  transform_all, next_value, report, wrap, notify, validate, transform,
}

module _ {V : Type 0} where
  -- What a subscriber makes of the value: its own answer where it reports no error, and otherwise,
  -- or where it answers nil, the value as it was.
  abbrev pub Makes : Value V → Reply V → Value V → Type 0
  Makes current reply v =
      ((reply.error ≡ none) × (reply.value ≡ some v))
      ⊎ (((reply.error ≢ none) ⊎ (reply.value ≡ none)) × (v ≡ current))

  next_value-Makes :
      (current : Value V) (reply : Reply V) → Makes current reply (next_value current reply)
  next_value-Makes current reply = go reply.error reply.value refl refl
    where
      go :
          (e : Option Error) (answer : Option (Value V))
          → reply.error ≡ e
          → reply.value ≡ answer
          → Makes current reply (next_value current (record { value = answer; error = e }))
      go none none p q = inr (inr q, refl)
      go none (some v) p q = inl (p, q)
      go (some e) answer p q = inr (inl (λ h. absurd (cc (p, h))), refl)

module _ {W V : Type 0} where
  -- Every subscriber is called once, in order, on the same value.
  unfoldable pub run_all : Value V → List (Subscription W V) → W → W
  run_all value [] w = w
  run_all value (sub ∷ rest) w = run_all value rest (invoke sub value w).1

  -- The vetoes of all subscribers, in order, each under the name of the one that gave it.
  unfoldable pub vetoes_of : Value V → List (Subscription W V) → W → List Rejection
  vetoes_of value [] w = []
  vetoes_of value (sub ∷ rest) w = elim (as_rejection (invoke sub value w).0.value) [
    | none ↦ vetoes_of value rest (invoke sub value w).1
    | some rej ↦
        record rej { module_id = sub.module_id } ∷ vetoes_of value rest (invoke sub value w).1
  ]

  -- No failure of a subscriber stops the dispatch.
  abbrev pub NoStop : HookPoint → Value V → List (Subscription W V) → W → Type 0
  NoStop point value [] w = Unit
  NoStop point value (sub ∷ rest) w =
      (apply_policy point sub.module_id (invoke sub value w).0.error ≡ none)
      × NoStop point value rest (invoke sub value w).1

  NoStop-open :
      (point : HookPoint) (value : Value V) (subs : List (Subscription W V)) (w : W)
      → is_closed point.policy ≡ false
      → NoStop point value subs w
  NoStop-open point value [] w h = tt
  NoStop-open point value (sub ∷ rest) w h =
      (ground arith, NoStop-open point value rest (invoke sub value w).1 h)

  notify_all-run_all :
      (point : HookPoint) (value : Value V) (subs : List (Subscription W V)) (w : W)
      → NoStop point value subs w
      → notify_all point value subs w ≡ (none, run_all value subs w)
  unfolding notify_all run_all
  notify_all-run_all point value [] w h = refl
  notify_all-run_all point value (sub ∷ rest) w h =
      rw (h.0, notify_all) (notify_all-run_all point value rest (invoke sub value w).1 h.1)

  validate_all-vetoes_of :
      (point : HookPoint) (value : Value V) (subs : List (Subscription W V))
      (vetoes : List Rejection) (w : W)
      → NoStop point value subs w
      → validate_all point value subs vetoes w
        ≡ (none, vetoes ++ vetoes_of value subs w, run_all value subs w)
  unfolding validate_all vetoes_of run_all
  validate_all-vetoes_of point value [] vetoes w h = rw append-nil
  validate_all-vetoes_of point value (sub ∷ rest) vetoes w h =
      elim (Option-cases (as_rejection (invoke sub value w).0.value)) [
        | inl e ↦
            rw (h.0, validate_all, e, vetoes_of)
              (validate_all-vetoes_of point value rest vetoes (invoke sub value w).1 h.1)
        | inr (rej, e) ↦
            rw (h.0, validate_all, e, vetoes_of)
              (rw append_assoc at (
                validate_all-vetoes_of point value rest
                  (vetoes ++ record rej { module_id = sub.module_id } ∷ []) (invoke sub value w).1
                  h.1))
      ]

  -- Every subscriber is called once, in order, on what the one before it made; the last value and
  -- world are `result` and `after`.
  abbrev pub Chained : Value V → List (Subscription W V) → W → Value V → W → Type 0
  Chained current [] w result after = (result ≡ current) × (after ≡ w)
  Chained current (sub ∷ rest) w result after =
      (v : Value V) × Makes current (invoke sub current w).0 v
      × Chained v rest (invoke sub current w).1 result after

  transform_all-Chained :
      (point : HookPoint) (value : Value V) (subs : List (Subscription W V)) (w : W)
      → is_closed point.policy ≡ false
      → (result : Value V) × (after : W) × (transform_all point value subs w
          ≡ (none, some result, after))
        × Chained value subs w result after
  unfolding transform_all
  transform_all-Chained point value [] w h = (value, w, refl, (refl, refl))
  transform_all-Chained point value (sub ∷ rest) w h =
      let passes : apply_policy point sub.module_id (invoke sub value w).0.error ≡ none =
        ground arith in
      let made : Value V = next_value value (invoke sub value w).0 in
      let (result, after, same, chained) =
        transform_all-Chained point made rest (invoke sub value w).1 h in
      (
        result,
        after,
        rw (passes, transform_all) same,
        (made, next_value-Makes value (invoke sub value w).0, chained),
      )

  notify_all-append :
      (point : HookPoint) (value : Value V) (before after : List (Subscription W V)) (w : W)
      → NoStop point value before w
      → notify_all point value (before ++ after) w
        ≡ notify_all point value after (run_all value before w)
  unfolding notify_all run_all
  notify_all-append point value [] after w h = refl
  notify_all-append point value (sub ∷ rest) after w h =
      rw (h.0, notify_all) (notify_all-append point value rest after (invoke sub value w).1 h.1)

-- Who is blamed for an error that the subscriber `id` reports.
abbrev pub Blames : String → Error → String → Type 0
Blames id e who =
    (e ≡ subscriber_failed who)
    ⊎ (((someone : String) → e ≢ subscriber_failed someone) × (who ≡ id))

wrap-Blames :
    (id : String) (e : Error)
    → (who : String) × (wrap id e ≡ subscriber_failed who) × Blames id e who
wrap-Blames id (subscriber_failed who) = (who, refl, inl refl)
wrap-Blames id invalid_hook_point = (id, refl, inr ((λ o h. absurd (cc h)), refl))
wrap-Blames id hook_not_offered = (id, refl, inr ((λ o h. absurd (cc h)), refl))
wrap-Blames id hook_already_offered = (id, refl, inr ((λ o h. absurd (cc h)), refl))
wrap-Blames id (rejected ref vetoes) = (id, refl, inr ((λ o h. absurd (cc h)), refl))
wrap-Blames id (other text) = (id, refl, inr ((λ o h. absurd (cc h)), refl))

abbrev refusal : Ref → List Rejection → Option Error
refusal ref [] = none
refusal ref (rej ∷ vetoes) = some (rejected ref (rej ∷ vetoes))

report-refusal :
    {W : Type 0} (ref : Ref) (vetoes : List Rejection) (w : W)
    → report ref (none, vetoes, w) ≡ (refusal ref vetoes, w)
report-refusal ref [] w = refl
report-refusal ref (rej ∷ vetoes) w = refl

module _ {W V : Type 0} (ref : Ref) (value : Value V) (r : Registry W V) (w : W) where
  -- Where no failure of a subscriber stops it, Validate calls every subscriber in dispatch order,
  -- also after a veto, and reports all vetoes and no others, each under its subscriber's name.
  pub validate_complete :
      (p : OfferedPoint) (subs : List (Subscription W V))
      → subscribers_of (key ref) r ≡ some (p, subs)
      → same_kind p.point.kind HookKind.validator ≡ true
      → NoStop p.point value subs w
      → validate ref value r w ≡ (refusal ref (vetoes_of value subs w), run_all value subs w)
  unfolding validate
  validate_complete p subs found kind h =
      rw (found, validate, kind)
        (ap (report ref) (validate_all-vetoes_of p.point value subs [] w h)
          ∙ report-refusal ref (vetoes_of value subs w) (run_all value subs w))

  -- On a point that fails open, Notify calls every subscriber in dispatch order and reports no error.
  notify_open :
      (p : OfferedPoint) (subs : List (Subscription W V))
      → subscribers_of (key ref) r ≡ some (p, subs)
      → same_kind p.point.kind HookKind.observer ≡ true
      → is_closed p.point.policy ≡ false
      → notify ref value r w ≡ (none, run_all value subs w)
  unfolding notify
  notify_open p subs found kind open_policy =
      rw (found, notify, kind)
        (notify_all-run_all p.point value subs w (NoStop-open p.point value subs w open_policy))

  -- On a point that fails open, Transform reports no error and calls every subscriber in dispatch
  -- order, each on what the one before it made: its answer where it reports no error, and the value
  -- as it was where it fails or answers nil. The result is what the last one made.
  pub transform_open :
      (p : OfferedPoint) (subs : List (Subscription W V))
      → subscribers_of (key ref) r ≡ some (p, subs)
      → same_kind p.point.kind HookKind.transformer ≡ true
      → is_closed p.point.policy ≡ false
      → (result : Value V) × (after : W) × (transform ref value r w ≡ (none, some result, after))
        × Chained value subs w result after
  unfolding transform
  transform_open p subs found kind open_policy =
      let (result, after, same, chained) = transform_all-Chained p.point value subs w open_policy in
      (result, after, rw (found, transform, kind) same, chained)

  -- On a point that fails closed, Notify stops at the first subscriber that fails: those before
  -- and that one were called, none after, and the error is a failure of that subscriber, or, where
  -- it reported the failure of a subscriber itself, what it reported.
  pub notify_closed :
      (p : OfferedPoint) (before after : List (Subscription W V)) (sub : Subscription W V)
      (e : Error)
      → subscribers_of (key ref) r ≡ some (p, before ++ sub ∷ after)
      → same_kind p.point.kind HookKind.observer ≡ true
      → is_closed p.point.policy ≡ true
      → NoStop p.point value before w
      → (invoke sub value (run_all value before w)).0.error ≡ some e
      → (who : String) × (notify ref value r w
          ≡ (some (subscriber_failed who), (invoke sub value (run_all value before w)).1))
        × Blames sub.module_id e who
  unfolding notify
  notify_closed p before after sub e found kind closed h failed =
      let (who, blamed, blames) = wrap-Blames sub.module_id e in
      (
        who,
        rw (found, notify, kind)
            (notify_all-append p.point value before (sub ∷ after) w h
              ∙ (unfold notify_all in rw (failed, notify_all, closed, blamed))),
        blames,
      )
