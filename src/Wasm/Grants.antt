-- ===== src/Wasm/Grants.antt =====
-- What a guest can do to the outside: only what the plugin's approved grants hold.
use sannad.Prelude.{
  ℕ, true, Option, none, some, ◌≡◌, refl, ◌⊎◌, inl, inr, length, ◌%◌, ltb, Bool-cases,
}
use sannad.Prelude.Texts.{Text}
use sannad.Wasm.Abi.{word}
use sannad.Wasm.CallState.{CallState, store}
use sannad.Wasm.Keys.{CapabilityRef, key, split_capability_key, accepted-key}
use sannad.Wasm.Context.{Deps, Context, World, Reply, done, failed, Value, Host, state_at}
use sannad.Wasm.HostCalls.{
  granted, capability_call, encode_call_result, handed, encoded, called, resolved, approved, parsed,
  read_request, in_memory, call_with,
}

module _ {C E W M V : Type 0} (host : Host C E W M V) (context : Context C E) where
  -- The outside is as it was, or as one call has left it that the kernel's caller served under the
  -- context of the invocation, of a capability whose key is granted.
  abbrev pub Called : World W → World W → Type 0
  Called w after =
      (after.outside ≡ w.outside)
      ⊎ ((deps : Deps C E) × (caller : C) × (ref : CapabilityRef) × (payload : Text) × (context.deps
            ≡ some deps)
          × (deps.caller ≡ some caller)
          × (granted (key ref) deps.consume ≡ true)
          × (after.outside ≡ (host.call caller context ref payload w).1.outside))

  handed-outside :
      (p : ℕ) (w : World W) (r : Option ℕ × CallState) → (handed p w r).1.outside ≡ w.outside
  handed-outside p w (none, s) = refl
  handed-outside p w (some handle, s) = refl

  encoded-outside :
      (deps : Deps C E) (p : ℕ) (w : World W) (r : Reply Text)
      → (encoded deps p w r).1.outside ≡ w.outside
  encoded-outside deps p w (failed text) = refl
  encoded-outside deps p w (done bytes) =
      elim (Bool-cases (ltb deps.limits.max_result_bytes (length bytes % word))) [
        | inl e ↦ rw e refl
        | inr e ↦
            rw e (
              handed-outside p w (store bytes deps.limits.max_result_handles (state_at p w.states)))
      ]

  called-outside :
      (deps : Deps C E) (p : ℕ) (r : Reply (Value V) × World W)
      → (called host deps p r).1.outside ≡ r.1.outside
  called-outside deps p (failed text, w) = refl
  called-outside deps p (done result, w) = encoded-outside deps p w (encode_call_result host result)

  approved-Called :
      (deps : Deps C E) (p : ℕ) (c : Option C) (capability payload : Text) (w : World W)
      → context.deps ≡ some deps
      → deps.caller ≡ c
      → Called w (approved host deps context p c capability payload w).1
  approved-Called deps p none capability payload w d c = inl refl
  approved-Called deps p (some caller) capability payload w d c =
      elim (Bool-cases (granted capability deps.consume)) [
        | inl held ↦ rw held (go (split_capability_key capability) refl held)
        | inr other ↦ rw other (inl refl)
      ]
    where
      go :
          (r : Option CapabilityRef)
          → split_capability_key capability ≡ r
          → granted capability deps.consume ≡ true
          → Called w (resolved host deps context p caller capability payload r w).1
      go none e g = inl refl
      go (some ref) e g = inr (
        deps,
        caller,
        ref,
        payload,
        d,
        c,
        rw (accepted-key capability ref e) g,
        called-outside deps p (host.call caller context ref payload w),
      )

  parsed-Called :
      (deps : Deps C E) (p : ℕ) (r : Reply (Text × Text)) (w : World W)
      → context.deps ≡ some deps
      → Called w (parsed host deps context p r w).1
  parsed-Called deps p (failed text) w d = inl refl
  parsed-Called deps p (done (capability, payload)) w d =
      approved-Called deps p deps.caller capability payload w d refl

  read_request-Called :
      (deps : Deps C E) (p : ℕ) (r : Option Text) (w : World W)
      → context.deps ≡ some deps
      → Called w (read_request host deps context p r w).1
  read_request-Called deps p none w d = inl refl
  read_request-Called deps p (some raw) w d = parsed-Called deps p (host.parse_call raw) w d

  in_memory-Called :
      (deps : Deps C E) (p : ℕ) (memory : Option M) (req_ptr req_len : ℕ) (w : World W)
      → context.deps ≡ some deps
      → Called w (in_memory host deps context p memory req_ptr req_len w).1
  in_memory-Called deps p none req_ptr req_len w d = inl refl
  in_memory-Called deps p (some memory) req_ptr req_len w d =
      read_request-Called deps p (host.read memory req_ptr req_len) w d

  call_with-Called :
      (d : Option (Deps C E)) (s : Option ℕ) (memory : Option M) (req_ptr req_len : ℕ) (w : World W)
      → context.deps ≡ d
      → Called w (call_with host context d s memory req_ptr req_len w).1
  call_with-Called none s memory req_ptr req_len w e = inl refl
  call_with-Called (some deps) none memory req_ptr req_len w e = inl refl
  call_with-Called (some deps) (some p) memory req_ptr req_len w e =
      elim (Bool-cases (ltb deps.limits.max_outbound_request_bytes req_len)) [
        | inl large ↦ rw large (inl refl)
        | inr fits ↦ rw fits (in_memory-Called deps p memory req_ptr req_len w e)
      ]

  -- Whatever a guest passes to capability_call, the outside is left as it was, or as one call has
  -- left it that the plugin's approved caller served, under the context of the invocation, of a
  -- capability whose key the plugin's grants hold.
  pub capability_call-Called :
      (memory : Option M) (req_ptr req_len : ℕ) (w : World W)
      → Called w (capability_call host context memory req_ptr req_len w).1
  unfolding capability_call
  capability_call-Called memory req_ptr req_len w =
      call_with-Called context.deps context.call_state memory req_ptr req_len w refl
