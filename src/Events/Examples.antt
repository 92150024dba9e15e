-- ===== src/Events/Examples.antt =====
-- A subject, and the theorems at it.
use sannad.Prelude.{◌≡◌, ◌↔◌, refl}
use sannad.Prelude.Int.{codes}
use sannad.Prelude.Texts.{Text}
use sannad.Events.Subject.{ok, subject_for, tenant_subjects}
use sannad.Events.Isolation.{Takes, subject_for-tenant_subjects}

abbrev created : Text
created = codes "sannad.acme.orders.created"

created-subject_for : subject_for (codes "acme") (codes "orders.created") ≡ ok created
unfolding subject_for
created-subject_for = refl

globex-tenant_subjects : tenant_subjects (codes "globex") ≡ ok (codes "sannad.globex.>")
unfolding tenant_subjects
globex-tenant_subjects = refl

subject_for-tenant_subjects_example :
    Takes (codes "sannad.globex.>") created ↔ (codes "acme" ≡ codes "globex")
subject_for-tenant_subjects_example =
    subject_for-tenant_subjects (codes "acme") (codes "globex") (codes "orders.created") created
      (codes "sannad.globex.>") created-subject_for globex-tenant_subjects
