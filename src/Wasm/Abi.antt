-- ===== src/Wasm/Abi.antt =====
-- The ABI of guests (internal/kernel/wasmhost/abi.go). A uint32 is a number below 2 ^ 32, a uint64
-- one below 2 ^ 64, and a byte slice is a list of numbers.
use sannad.Prelude.{ℕ, [], ◌∷◌, Option, none, some, ◌≡◌, ◌+◌, ◌*◌, ◌/◌, ◌%◌, ◌<◌, arith}
use sannad.Prelude.Texts.{Text}

-- 2 ^ 32
abbrev pub word : ℕ
word = 4294967296

unfoldable pub pack : ℕ → ℕ → ℕ
pack ptr length = ptr * word + length

-- The high half is the pointer, the low half the length.
unfoldable pub pack_result : ℕ → ℕ × ℕ
pack_result value = (value / word % word, value % word)

-- A pointer and a length of 32 bits survive the one value in which a guest returns them, which is
-- of 64 bits, and every value of 64 bits is the packing of what it is split into.
pub pack_result-pack :
    (ptr length value : ℕ)
    → ptr < word
    → length < word
    → value < word * word
    → (pack_result (pack ptr length) ≡ (ptr, length))
      × (pack ptr length < word * word)
      × (pack (pack_result value).0 (pack_result value).1 ≡ value)
unfolding pack pack_result
pack_result-pack ptr length value p l v =
    let high : (ptr * word + length) / word % word ≡ ptr = omega arith in
    let low : (ptr * word + length) % word ≡ length = omega arith in
    (cc (high, low), omega arith, omega arith)

abbrev pub status_ok : ℕ
status_ok = 0

abbrev pub status_error : ℕ
status_error = 1

-- The status byte and the payload; none is `ErrGuestFailed`.
unfoldable pub status_of : Text → Option (ℕ × Text)
status_of [] = none
status_of (status ∷ payload) = some (status, payload)

unfoldable pub encode_response : ℕ → Text → Text
encode_response status payload = status ∷ payload
