-- ===== src/Kube/Calls/Posts.antt =====
-- What an action's value satisfies when it returns one, one rule for each way to build an action.
use quarks_statefulset.Prelude.{
  ◌≡◌, refl, subst, Bool, true, false, Outcome, ok, ok_injective, err, panic, Error, if◌then◌else◌,
  String,
}
use quarks_statefulset.Kube.Calls.Bind.{
  Call, History, Exec, pure, fail, crash, lift, ask, ask_with, annotate, wrap_answer, rescue, ◌>>=◌,
  when_ok, either_way, on_result, handle_answer,
}
use quarks_statefulset.Kube.Calls.Tracing.{Extends, Extends-trans, Emits}

pub record Returns {A : Type 0} (Q : A → Type 0) (m : Exec A) : Type 0 where
  pub post : (h : History) (a : A) → (m h).0 ≡ ok a → Q a

module _ {A : Type 0} {Q : A → Type 0} where
  pub Returns-pure : (a : A) → Q a → Returns Q (pure a)
  unfolding ◌>>=◌
  Returns-pure a q = record { post = λ h b e. subst Q (ok_injective e) q }

  pub Returns-fail : (e : Error) → Returns Q (fail e)
  unfolding ◌>>=◌
  Returns-fail e = record { post = λ h b p. cc p }

  pub Returns-crash : Returns Q crash
  unfolding ◌>>=◌
  Returns-crash = record { post = λ h b p. cc p }

  pub Returns-lift : (o : Outcome A) → ((a : A) → o ≡ ok a → Q a) → Returns Q (lift o)
  unfolding ◌>>=◌
  Returns-lift o q = record { post = λ h a e. q a e }

  pub Returns-ask_with :
      (c : Outcome A → Call) (answer : History → Outcome A)
      → ((h : History) (a : A) → answer h ≡ ok a → Q a)
      → Returns Q (ask_with c answer)
  unfolding ◌>>=◌
  Returns-ask_with c answer q = record { post = q }

  pub Returns-ask :
      (c : Call) (answer : History → Outcome A)
      → ((h : History) (a : A) → answer h ≡ ok a → Q a)
      → Returns Q (ask c answer)
  unfolding ◌>>=◌
  Returns-ask c answer q = record { post = q }

  annotated :
      (text : String) (r : Outcome A × History)
      → ((a : A) → r.0 ≡ ok a → Q a)
      → (b : A) → (wrap_answer text r).0 ≡ ok b
      → Q b
  annotated text (ok a, h) q b e = q b e
  annotated text (err x, h) q b e = cc e
  annotated text (panic, h) q b e = cc e

  pub Returns-annotate : (text : String) (m : Exec A) → Returns Q m → Returns Q (annotate text m)
  unfolding ◌>>=◌
  Returns-annotate text m km = record { post = λ h. annotated text (m h) (km.post h) }

  pub Returns-if :
      (b : Bool) (m n : Exec A)
      → (b ≡ true → Returns Q m)
      → (b ≡ false → Returns Q n)
      → Returns Q (if b then m else n)
  Returns-if true m n km kn = km refl
  Returns-if false m n km kn = kn refl

  handled :
      (r : Outcome A × History) (f : Error → Exec A)
      → ((a : A) → r.0 ≡ ok a → Q a)
      → ((e : Error) → Returns Q (f e))
      → (b : A) → (handle_answer r f).0 ≡ ok b
      → Q b
  handled (ok a, h) f q k b e = q b e
  handled (err x, h) f q k b e = (k x).post h b e
  handled (panic, h) f q k b e = cc e

  pub Returns-rescue :
      (m : Exec A) (f : Error → Exec A)
      → Returns Q m
      → ((e : Error) → Returns Q (f e))
      → Returns Q (rescue m f)
  unfolding ◌>>=◌
  Returns-rescue m f km kf = record { post = λ h. handled (m h) f (km.post h) kf }

module _ {A B : Type 0} where
  bound :
      {R : B → Type 0} (r : Outcome A × History) (f : A → Exec B)
      → ((a : A) → r.0 ≡ ok a → Returns R (f a))
      → (b : B) → (when_ok r f).0 ≡ ok b
      → R b
  bound (ok a, h) f k b e = (k a refl).post h b e
  bound (err x, h) f k b e = cc e
  bound (panic, h) f k b e = cc e

  pub Returns-bind :
      {Q : A → Type 0} {R : B → Type 0} (m : Exec A) (f : A → Exec B)
      → Returns Q m
      → ((a : A) → Q a → Returns R (f a))
      → Returns R (m >>= f)
  unfolding ◌>>=◌
  Returns-bind m f km kf = record { post = λ h. bound (m h) f (λ a e. kf a (km.post h a e)) }

  extended :
      {P : Call → Type 0} (r : Outcome A × History) (f : A → Exec B) {h : History}
      → Extends P h r.1
      → ((a : A) → r.0 ≡ ok a → Emits P (f a))
      → Extends P h (when_ok r f).1
  extended (ok a, h') f x k = Extends-trans x ((k a refl).at h')
  extended (err e, h') f x k = x
  extended (panic, h') f x k = x

  -- The rest of a block may use what the first action returns.
  pub Emits-bind_returning :
      {Q : A → Type 0} {P : Call → Type 0} (m : Exec A) (f : A → Exec B)
      → Returns Q m
      → Emits P m
      → ((a : A) → Q a → Emits P (f a))
      → Emits P (m >>= f)
  unfolding ◌>>=◌
  Emits-bind_returning m f km em kf = record {
    at = λ h. extended (m h) f (em.at h) (λ a e. kf a (km.post h a e));
  }

pub Returns-any : {A : Type 0} (m : Exec A) → Returns (λ a. Unit {0}) m
Returns-any m = record { post = λ h a e. tt }

module _ {A B : Type 0} where
  either_extended :
      {P : Call → Type 0} (r : Outcome A × History) (f : A → Exec B) (g : Error → Exec B)
      {h : History}
      → Extends P h r.1
      → ((a : A) → r.0 ≡ ok a → Emits P (f a))
      → ((e : Error) → Emits P (g e))
      → Extends P h (either_way r f g).1
  either_extended (ok a, h') f g x kf kg = Extends-trans x ((kf a refl).at h')
  either_extended (err e, h') f g x kf kg = Extends-trans x ((kg e).at h')
  either_extended (panic, h') f g x kf kg = x

  -- As above, for both ways on.
  pub Emits-on_result_returning :
      {Q : A → Type 0} {P : Call → Type 0} (m : Exec A) (f : A → Exec B) (g : Error → Exec B)
      → Returns Q m
      → Emits P m
      → ((a : A) → Q a → Emits P (f a))
      → ((e : Error) → Emits P (g e))
      → Emits P (on_result m f g)
  unfolding ◌>>=◌
  Emits-on_result_returning m f g km em kf kg = record {
    at = λ h. either_extended (m h) f g (em.at h) (λ a e. kf a (km.post h a e)) kg;
  }
