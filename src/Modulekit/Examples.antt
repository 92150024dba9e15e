-- ===== src/Modulekit/Examples.antt =====
-- A consumer and a projection, and the theorems at them.
use sannad.Prelude.{
  ℕ, ◌≤◌, ◌+◌, String, Bool, true, false, some, List, [], ◌∷◌, ◌≡◌, refl, arith, ◌⊎◌, inl,
}
use sannad.Prelude.Maps.{lookup}
use sannad.Modulekit.Transactions.{Error, duplicate_event, Result, ok, err, Store}
use sannad.Modulekit.Idempotency.{Tables, is_claimed, idempotent}
use sannad.Modulekit.ExactlyOnce.{Once, deliver, deliver-Once}
use sannad.Modulekit.Projection as Projections
use sannad.Modulekit.Projection.{Row, Model, project}
use sannad.Modulekit.Monotone.{sequence_at, project_all, project_all-advances}
use sannad.Modulekit.Calm.{Marked, idempotent-calm, project-calm}

-- A consumer that adds 5 to a balance.
abbrev add_five : ℕ → Result (Unit {0}) × ℕ
add_five balance = (ok tt, balance + 5)

abbrev ledger : List Bool → Store (Tables ℕ)
ledger faults = record { tables = record { processed = []; module_data = 10 }; faults = faults }

deliver-Once_example :
    Once "billing" "acme-7" add_five 10
      (deliver "billing" "acme-7" add_five 3 (ledger (false ∷ false ∷ true ∷ [])))
unfolding Once is_claimed
deliver-Once_example =
    deliver-Once "billing" "acme-7" add_five 3 10 (ledger (false ∷ false ∷ true ∷ []))
      (inl (refl, refl))

abbrev credited : Store (Tables ℕ)
credited = record {
  tables = record {
    processed = record { consumer = "billing"; event_id = "acme-7" } ∷ [];
    module_data = 15;
  };
  faults = [];
}

idempotent-calm_example :
    (Marked "billing" "acme-7" []
      × (idempotent "billing" "acme-7" add_five (ledger []) ≡ (err duplicate_event, ledger [])))
    ⊎ ((¬ Marked "billing" "acme-7" []
          × ((add_five 10).0 ≡ ok tt)
          × (idempotent "billing" "acme-7" add_five (ledger []) ≡ (ok tt, credited)))
        ⊎ (¬ Marked "billing" "acme-7" []
            × ((e : Error) × ((add_five 10).0 ≡ err e)
                × (idempotent "billing" "acme-7" add_five (ledger []) ≡ (err e, ledger [])))))
idempotent-calm_example =
    idempotent-calm "billing" "acme-7" add_five (ledger []) refl (λ h. absurd (cc))
      (λ h. absurd (cc))

abbrev contact : String → ℕ → Row String
contact name sequence = record {
  projection_key = "c-1";
  source_sequence = sequence;
  columns = name;
}

abbrev contacts : Model
contacts = record { key_column = "contact_id"; has_columns = true }

abbrev directory : Store (Projections.Tables String)
directory = record {
  tables = record { rows = ("c-1", contact "Ann" 4) ∷ []; states = [] };
  faults = [];
}

project_all-advances_example :
    4
    ≤ sequence_at "c-1"
        (project_all contacts (contact "Anna" 6 ∷ contact "An" 3 ∷ []) directory).tables
unfolding lookup
project_all-advances_example =
    project_all-advances contacts (contact "Anna" 6 ∷ contact "An" 3 ∷ []) "c-1" directory

project-calm_example :
    ((project contacts (contact "Anna" 6) directory).0 ≡ ok tt)
    × (lookup "c-1" (project contacts (contact "Anna" 6) directory).1.tables.rows
        ≡ some (contact "Anna" 6))
unfolding lookup
project-calm_example =
    project-calm contacts (contact "Anna" 6) directory refl (λ h. absurd (cc)) (omega arith)
      (λ h. absurd (cc)) refl
