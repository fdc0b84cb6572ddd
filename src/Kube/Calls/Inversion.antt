-- ===== src/Kube/Calls/Inversion.antt =====
-- What an action that returns a value has come through.
use quarks_statefulset.Prelude.{◌≡◌, refl, String, ◌∷◌, Outcome, ok, err, panic}
use quarks_statefulset.Kube.Calls.Bind.{
  Call, History, Exec, pure, lift, ask, annotate, wrap_answer, ◌>>=◌, when_ok,
}

module _ {A B : Type 0} where
  through :
      (r : Outcome A × History) (f : A → Exec B) {b : B} {h' : History}
      → when_ok r f ≡ (ok b, h')
      → (a : A) × (after : History) × (r ≡ (ok a, after)) × (f a after ≡ (ok b, h'))
  through (ok a, after) f e = (a, after, refl, e)
  through (err x, after) f e = cc e
  through (panic, after) f e = cc e

  pub bind-returned :
      (m : Exec A) (f : A → Exec B) {h : History} {b : B} {h' : History}
      → (m >>= f) h ≡ (ok b, h')
      → (a : A) × (after : History) × (m h ≡ (ok a, after)) × (f a after ≡ (ok b, h'))
  unfolding ◌>>=◌
  bind-returned m f {h} e = through (m h) f e

module _ {A : Type 0} where
  unwrapped :
      (text : String) (r : Outcome A × History) {a : A} {h' : History}
      → wrap_answer text r ≡ (ok a, h')
      → r ≡ (ok a, h')
  unwrapped text (ok a, g) e = e
  unwrapped text (err x, g) e = cc e
  unwrapped text (panic, g) e = cc e

  pub annotate-returned :
      (text : String) (m : Exec A) {h : History} {a : A} {h' : History}
      → annotate text m h ≡ (ok a, h')
      → m h ≡ (ok a, h')
  unfolding ◌>>=◌
  annotate-returned text m {h} e = unwrapped text (m h) e

  pub lift-returned :
      (o : Outcome A) {h : History} {a : A} {h' : History}
      → lift o h ≡ (ok a, h')
      → (o ≡ ok a) × (h' ≡ h)
  unfolding ◌>>=◌
  lift-returned o e = (cc e, cc e)

  pub pure-returned :
      (a : A) {h : History} {b : A} {h' : History} → pure a h ≡ (ok b, h') → (a ≡ b) × (h ≡ h')
  unfolding ◌>>=◌
  pure-returned a e = (cc e, cc e)

  pub ask-returned :
      (c : Call) (answer : History → Outcome A) {h : History} {a : A} {h' : History}
      → ask c answer h ≡ (ok a, h')
      → (answer h ≡ ok a) × (h' ≡ c ∷ h)
  unfolding ◌>>=◌
  ask-returned c answer e = (cc e, cc e)
