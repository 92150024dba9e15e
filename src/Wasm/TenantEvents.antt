-- ===== src/Wasm/TenantEvents.antt =====
-- The events that a guest publishes carry the tenant of its invocation.
use sannad.Prelude.{ℕ, true, Option, none, some, ◌≡◌, refl, ◌⊎◌, inl, inr, ltb, Bool-cases, [], ◌∷◌}
use sannad.Prelude.Texts.{Text}
use sannad.Events.Subject as Subject
use sannad.Events.Subject.{subject, subject_for, tenant_of}
use sannad.Events.Isolation.{tenant_of-subject_for}
use sannad.Wasm.Context.{Deps, Context, World, Reply, done, failed, Host}
use sannad.Wasm.HostCalls.{granted}
use sannad.Wasm.Publish.{
  event_publish, on_subject, published, approved, parsed, read_request, in_memory, publish_with,
}

subject-tenant_of :
    (tenant event s : Text) → subject tenant event ≡ Subject.ok s → tenant_of s ≡ some tenant
unfolding subject
subject-tenant_of [] event s h = absurd (cc)
subject-tenant_of (c ∷ tenant) event s h = tenant_of-subject_for (c ∷ tenant) event s h

module _ {C E W M V : Type 0} (host : Host C E W M V) (context : Context C E) where
  -- The outside is as it was, or as one publication has left it of an event that is granted, on the
  -- subject of that event for the tenant of the context.
  abbrev pub Published : World W → World W → Type 0
  Published w after =
      (after.outside ≡ w.outside)
      ⊎ ((deps : Deps C E) × (events : E) × (event : Text) × (topic : Text) × (payload : Text)
          × (context.deps ≡ some deps)
          × (deps.events ≡ some events)
          × (granted event deps.publish ≡ true)
          × (subject context.tenant event ≡ Subject.ok topic)
          × (tenant_of topic ≡ some context.tenant)
          × (after.outside ≡ (host.publish events context topic payload w).1.outside))

  published-outside :
      (p : ℕ) (r : Reply (Unit {0}) × World W) → (published p r).1.outside ≡ r.1.outside
  published-outside p (failed text, w) = refl
  published-outside p (done unit, w) = refl

  approved-Published :
      (deps : Deps C E) (p : ℕ) (e : Option E) (event payload : Text) (w : World W)
      → context.deps ≡ some deps
      → deps.events ≡ e
      → Published w (approved host deps context p e event payload w).1
  approved-Published deps p none event payload w d e = inl refl
  approved-Published deps p (some events) event payload w d e =
      elim (Bool-cases (granted event deps.publish)) [
        | inl held ↦ rw held (go (subject context.tenant event) refl held)
        | inr other ↦ rw other (inl refl)
      ]
    where
      go :
          (r : Subject.Result)
          → subject context.tenant event ≡ r
          → granted event deps.publish ≡ true
          → Published w (on_subject host context p events payload r w).1
      go (Subject.err refused) same g = inl refl
      go (Subject.ok topic) same g = inr (
        deps,
        events,
        event,
        topic,
        payload,
        d,
        e,
        g,
        same,
        subject-tenant_of context.tenant event topic same,
        published-outside p (host.publish events context topic payload w),
      )

  parsed-Published :
      (deps : Deps C E) (p : ℕ) (r : Reply (Text × Text)) (w : World W)
      → context.deps ≡ some deps
      → Published w (parsed host deps context p r w).1
  parsed-Published deps p (failed text) w d = inl refl
  parsed-Published deps p (done (event, payload)) w d =
      approved-Published deps p deps.events event payload w d refl

  read_request-Published :
      (deps : Deps C E) (p : ℕ) (r : Option Text) (w : World W)
      → context.deps ≡ some deps
      → Published w (read_request host deps context p r w).1
  read_request-Published deps p none w d = inl refl
  read_request-Published deps p (some raw) w d = parsed-Published deps p (host.parse_event raw) w d

  in_memory-Published :
      (deps : Deps C E) (p : ℕ) (memory : Option M) (req_ptr req_len : ℕ) (w : World W)
      → context.deps ≡ some deps
      → Published w (in_memory host deps context p memory req_ptr req_len w).1
  in_memory-Published deps p none req_ptr req_len w d = inl refl
  in_memory-Published deps p (some memory) req_ptr req_len w d =
      read_request-Published deps p (host.read memory req_ptr req_len) w d

  publish_with-Published :
      (d : Option (Deps C E)) (s : Option ℕ) (memory : Option M) (req_ptr req_len : ℕ) (w : World W)
      → context.deps ≡ d
      → Published w (publish_with host context d s memory req_ptr req_len w).1
  publish_with-Published none s memory req_ptr req_len w e = inl refl
  publish_with-Published (some deps) none memory req_ptr req_len w e = inl refl
  publish_with-Published (some deps) (some p) memory req_ptr req_len w e =
      elim (Bool-cases (ltb deps.limits.max_event_payload_bytes req_len)) [
        | inl large ↦ rw large (inl refl)
        | inr fits ↦ rw fits (in_memory-Published deps p memory req_ptr req_len w e)
      ]

  -- Whatever a guest passes to event_publish, the outside is left as it was, or as one publication
  -- has left it of an event that the plugin's grants hold, on the subject of the tenant of the
  -- invocation's context, from which a subscriber reads that same tenant.
  pub event_publish-Published :
      (memory : Option M) (req_ptr req_len : ℕ) (w : World W)
      → Published w (event_publish host context memory req_ptr req_len w).1
  unfolding event_publish
  event_publish-Published memory req_ptr req_len w =
      publish_with-Published context.deps context.call_state memory req_ptr req_len w refl
