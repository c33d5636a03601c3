-- ===== src/Scripts/Flow/Inversion.antt =====
-- Where a chain of steps returns, each of its steps has returned.
use sgraph_omega_connector.Base.{Result, ok, raise, ◌≡◌, refl, arith}
use sgraph_omega_connector.Errors.{Exception}
use sgraph_omega_connector.Scripts.Flow.{Flow, resume}

pub resume-eq-ok :
    {S A B : Type 0} (m : S × Result Exception A) (f : A → Flow S B) (s' : S) (b : B)
    → resume m f ≡ (s', ok b)
    → (s₁ : S) × (a : A) × (m ≡ (s₁, ok a)) × (f a s₁ ≡ (s', ok b))
unfolding resume
resume-eq-ok (s₁, ok a) f s' b h = (s₁, a, refl, h)
resume-eq-ok (s₁, raise e) f s' b h = absurd (ground (arith, h))
