-- ===== src/Logging/Accepted.antt =====
-- Which configurations pkg/logging/logger.go accepts.
use vault_autounseal_operato.Prelude.{
  ◌≡◌, refl, ◌∙◌, Bool, true, false, ◌&&◌, ◌||◌, List, [], ◌∷◌, arith,
}
use vault_autounseal_operato.GoLib.Strings.{Bytes, codes, bytes_eq}
use vault_autounseal_operato.GoLib.Outcome.{Outcome, ok, err, panic, ◌>>=◌}
use vault_autounseal_operato.Logging.{
  LoggerConfig, parse_log_level, parse_encoder, made_logger, setup_logger, setup_global_logger,
}

abbrev pub one_of : Bytes → List Bytes → Bool
one_of x [] = false
one_of x (y ∷ ys) = bytes_eq x y || one_of x ys

abbrev pub level_names : List Bytes
level_names =
    codes "debug"
    ∷ codes "info"
    ∷ codes "warn"
    ∷ codes "warning"
    ∷ codes "error"
    ∷ codes "fatal"
    ∷ []

abbrev pub encoder_names : List Bytes
encoder_names = codes "json" ∷ codes "console" ∷ []

abbrev pub succeeded : {E A : Type 0} → Outcome E A → Bool
succeeded (ok a) = true
succeeded (err e) = false
succeeded panic = false

level-accepts : (level : Bytes) → succeeded (parse_log_level level) ≡ one_of level level_names
unfolding parse_log_level
level-accepts level = ground arith

encoder-accepts :
    (encoder : Bytes) → succeeded (parse_encoder encoder) ≡ one_of encoder encoder_names
unfolding parse_encoder
encoder-accepts encoder = ground arith

succeeded_both :
    {E A B C : Type 0} (m : Outcome E A) (n : Outcome E B) (f : A → B → C)
    → succeeded (m >>= λ a. n >>= λ b. ok (f a b)) ≡ (succeeded m && succeeded n)
succeeded_both (ok a) (ok b) f = refl
succeeded_both (ok a) (err e) f = refl
succeeded_both (ok a) panic f = refl
succeeded_both (err e) n f = refl
succeeded_both panic n f = refl

succeeded_then :
    {E A : Type 0} (m : Outcome E A) → succeeded {A = Unit {0}} (m >>= λ a. ok tt) ≡ succeeded m
succeeded_then (ok a) = refl
succeeded_then (err e) = refl
succeeded_then panic = refl

ap2 : {a b c d : Bool} → a ≡ b → c ≡ d → (a && c) ≡ (b && d)
ap2 p q = cc (p, q)

-- A logger is made exactly for one of the six level names with one of the two encoder names, in
-- small letters; SetupGlobalLogger succeeds for the same configurations, and leaves the global logger
-- as it was for all.
pub setup_logger-accepts :
    {G : Type 0} (config : LoggerConfig) (g : G)
    → let accepted = one_of config.level level_names && one_of config.encoder encoder_names in
      (succeeded (setup_logger config) ≡ accepted)
      × (succeeded (setup_global_logger config g).0 ≡ accepted)
      × ((setup_global_logger config g).1 ≡ g)
unfolding setup_logger setup_global_logger
setup_logger-accepts config g =
    let made =
      succeeded_both (parse_log_level config.level) (parse_encoder config.encoder)
        (made_logger config) in
    let names = ap2 (level-accepts config.level) (encoder-accepts config.encoder) in
    (made ∙ names, succeeded_then (setup_logger config) ∙ made ∙ names, refl)
