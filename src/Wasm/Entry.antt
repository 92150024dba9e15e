-- ===== src/Wasm/Entry.antt =====
-- What holds of a guest that is invoked: the grants it acts under, and the size of its response.
use sannad.Prelude.{
  ℕ, true, false, Option, none, some, List, [], ◌∷◌, ◌≡◌, refl, ◌∙◌, ◌≤◌, ◌/◌, ◌%◌, ◌⊎◌, inl, inr,
  ltb, length, arith, Bool-cases,
}
use sannad.Prelude.Texts.{Text}
use sannad.Wasm.Abi.{word, pack_result}
use sannad.Wasm.Keys.{CapabilityRef, key}
use sannad.Wasm.Context.{Deps, Context, World, Host}
use sannad.Wasm.HostCalls.{granted, capability_call}
use sannad.Wasm.Grants.{capability_call-Called}
use sannad.Wasm.Host.{
  Error, Ending, finished, timed_out, trapped, Result, ok, err, Runtime, Plugin, enter, invoke,
  response, respond, handled, handle_in, allocated, instantiated,
}

module _ {C E W M V : Type 0} (host : Host C E W M V) (v2 : Option (Deps C E))
    (context : Context C E) where
  -- The grants under which a plugin's guest acts: the plugin's own, or those that the context holds
  -- already where the plugin has none.
  abbrev pub ActsUnder : Deps C E → Type 0
  ActsUnder deps = (v2 ≡ some deps) ⊎ ((v2 ≡ none) × (context.deps ≡ some deps))

  enter-ActsUnder :
      (d : Option (Deps C E)) (w : World W) (deps : Deps C E)
      → v2 ≡ d
      → (enter d context w).0.deps ≡ some deps
      → ActsUnder deps
  unfolding enter
  enter-ActsUnder none w deps e h = inr (e, h)
  enter-ActsUnder (some own) w deps e h = inl (e ∙ h)

  -- Whatever a guest that Invoke has entered passes to capability_call, the outside is left as it
  -- was, or as a call has left it of a capability whose key is granted to the guest's own plugin;
  -- or, where that plugin has no grants, to the invocation in whose call chain it is entered.
  pub enter-capability_call :
      (memory : Option M) (req_ptr req_len : ℕ) (w : World W)
      → let (inner, begun) = enter v2 context w in
        let after = (capability_call host inner memory req_ptr req_len begun).1 in
        (after.outside ≡ begun.outside)
        ⊎ ((deps : Deps C E) × (caller : C) × (ref : CapabilityRef) × (payload : Text) × ActsUnder
              deps
            × (deps.caller ≡ some caller)
            × (granted (key ref) deps.consume ≡ true)
            × (after.outside ≡ (host.call caller inner ref payload begun).1.outside))
  enter-capability_call memory req_ptr req_len w =
      let (inner, begun) = enter v2 context w in
      elim (capability_call-Called host inner memory req_ptr req_len begun) [
        | inl e ↦ inl e
        | inr (deps, caller, ref, payload, d, c, g, o) ↦
            inr (deps, caller, ref, payload, enter-ActsUnder v2 w deps refl d, c, g, o)
      ]

module _ {C E W G I : Type 0} (runtime : Runtime C E W G I)
    (exact : (i : I) (ptr n : ℕ) (bytes : Text)
      → runtime.read i ptr n ≡ some bytes
      → length bytes ≡ n)
    (max : ℕ) where
  Bounded : Result Text → Type 0
  Bounded r = (bytes : Text) → r ≡ ok bytes → length bytes ≤ max

  err-Bounded : (e : Error) → Bounded (err e)
  unfolding Bounded
  err-Bounded e bytes h = absurd (cc h)

  respond-Bounded : (r : List ℕ × I) → Bounded (respond runtime max r)
  unfolding Bounded pack_result
  respond-Bounded ([], instance) = λ bytes h. absurd (cc h)
  respond-Bounded (packed ∷ results, instance) = elim (Bool-cases (ltb max (packed % word))) [
    | inl large ↦ rw large (λ bytes h. absurd (cc h))
    | inr fits ↦
        rw fits (go fits (runtime.read instance (packed / word % word) (packed % word)) refl)
  ]
    where
      go :
          ltb max (packed % word) ≡ false
          → (r : Option Text) → runtime.read instance (packed / word % word) (packed % word) ≡ r
          → Bounded (response r)
      go fits none e bytes h = absurd (cc h)
      go fits (some got) e bytes h =
          let same_bytes : got ≡ bytes = cc h in
          let size : length got ≡ packed % word =
            exact instance (packed / word % word) (packed % word) got e in
          rw (← same_bytes) (ground (arith, size, fits))

  handled-Bounded : (r : Ending (List ℕ × I) × World W) → Bounded (handled runtime max r).0
  handled-Bounded (finished r, w) = respond-Bounded r
  handled-Bounded (timed_out, w) = err-Bounded _
  handled-Bounded (trapped, w) = err-Bounded _

  handle_in-Bounded :
      (context : Context C E) (request : Text) (ptr : ℕ) (w : World W) (r : Option I)
      → Bounded (handle_in runtime max context request ptr w r).0
  handle_in-Bounded context request ptr w none = err-Bounded _
  handle_in-Bounded context request ptr w (some instance) =
      handled-Bounded (runtime.handle instance context ptr (length request) w)

  allocated-Bounded :
      (context : Context C E) (request : Text) (r : Ending (List ℕ × I) × World W)
      → Bounded (allocated runtime max context request r).0
  allocated-Bounded context request (timed_out, w) = err-Bounded _
  allocated-Bounded context request (trapped, w) = err-Bounded _
  allocated-Bounded context request (finished ([], instance), w) = err-Bounded _
  allocated-Bounded context request (finished (value ∷ values, instance), w) =
      handle_in-Bounded context request (value % word) w
        (runtime.write instance (value % word) request)

  instantiated-Bounded :
      (context : Context C E) (request : Text) (r : Ending I × World W)
      → Bounded (instantiated runtime max context request r).0
  instantiated-Bounded context request (timed_out, w) = err-Bounded _
  instantiated-Bounded context request (trapped, w) = err-Bounded _
  instantiated-Bounded context request (finished instance, w) =
      elim (Bool-cases (runtime.has_memory instance)) [
        | inl e ↦
            rw e (
              allocated-Bounded context request (runtime.alloc instance context (length request) w))
        | inr e ↦ rw e (err-Bounded _)
      ]

-- Where the runtime's read of n bytes gives n bytes, whatever a guest does, with its memory, its
-- deadline and the value that it returns, Invoke gives no more bytes than the plugin's limit.
pub invoke-length :
    {C E W G I : Type 0} (runtime : Runtime C E W G I)
    → ((i : I) (ptr n : ℕ) (bytes : Text) → runtime.read i ptr n ≡ some bytes → length bytes ≡ n)
    → (plugin : Plugin C E G) (context : Context C E) (request : Text) (w : World W) (bytes : Text)
    → (invoke runtime plugin context request w).0 ≡ ok bytes
    → length bytes ≤ plugin.config.max_response_bytes
unfolding invoke Bounded
invoke-length runtime exact plugin context request w bytes h =
    let (inner, begun) = enter plugin.v2 context w in
    instantiated-Bounded runtime exact plugin.config.max_response_bytes inner request
      (runtime.instantiate plugin.guest inner begun) bytes h
