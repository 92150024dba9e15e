-- ===== src/Storage/Examples.antt =====
-- An engine that records what it is asked, and the theorem at it.
use sannad.Prelude.{ℕ, List, [], ◌∷◌, ◌≡◌, refl}
use sannad.Prelude.Int.{codes}
use sannad.Prelude.Texts.{Text}
use sannad.Storage.Adapter.{
  Condition, equal, Engine, ok, done, refused, unsupported_operator, unconditional, update, delete,
}
use sannad.Storage.Guards.{Guarded, update-Guarded}

abbrev Asked : Type 0
Asked = List (List (Text × ℕ))

abbrev engine : Engine ℕ ℕ ℕ ℕ Asked
engine = record {
  find = λ dest query s. (ok 0, query ∷ s);
  first = λ dest query s. (ok 0, query ∷ s);
  count = λ dest query s. (ok 0, query ∷ s);
  create = λ model s. (ok 0, s);
  update = λ model query s. (ok 0, query ∷ s);
  delete = λ model query s. (ok 0, query ∷ s);
}

abbrev of_contact : List (Condition ℕ)
of_contact = record { field = codes "id"; op = equal; value = 7 } ∷ []

rendered-update : update engine 1 of_contact [] ≡ (done 0, ((codes "id = ?", 7) ∷ []) ∷ [])
unfolding update
rendered-update = refl

unconditional-delete : delete engine 1 [] [] ≡ (refused unconditional, [])
unfolding delete
unconditional-delete = refl

expression-update :
    update engine 1 (record { field = codes "id; --"; op = equal; value = 7 } ∷ []) []
    ≡ (refused unsupported_operator, [])
unfolding update
expression-update = refl

update-Guarded_example :
    Guarded of_contact (λ query t. engine.update 1 query t) [] (update engine 1 of_contact [])
    × Guarded of_contact (λ query t. engine.delete 1 query t) [] (delete engine 1 of_contact [])
update-Guarded_example = update-Guarded engine 1 of_contact []
