-- ===== src/Log/Levels.antt =====
-- The levels of `_log` in log.c.
use prephv.Base.{
  ℕ, zero, suc, ◌≤◌, ◌<◌, ◌≡◌, ◌≢◌, refl, arith, false, ◌&&◌, none, some, List, [], ltb, ◌==◌, ◌!=◌,
  ◌⊎◌, inl, inr, Bool-cases, min, ap, sym, ◌∙◌,
}
use prephv.Log.{colors, color_at, clamp, log, log_text, log_error, log_fatal}

color_found : (l : ℕ) → l < 6 → (c : List ℕ) × (color_at colors l ≡ some c)
unfolding color_at
color_found zero h = (_, refl)
color_found (suc zero) h = (_, refl)
color_found (suc (suc zero)) h = (_, refl)
color_found (suc (suc (suc zero))) h = (_, refl)
color_found (suc (suc (suc (suc zero)))) h = (_, refl)
color_found (suc (suc (suc (suc (suc zero))))) h = (_, refl)
color_found (suc (suc (suc (suc (suc (suc n)))))) h = absurd (omega arith)

clamp-lt : (level : ℕ) → level ≢ 6 → clamp level < 6
unfolding clamp
clamp-lt level ne = ground arith

clamp_fatal : (level : ℕ) → (clamp level == log_fatal) ≡ (level == 0)
unfolding clamp
clamp_fatal level = ground arith

clamp-min : (level : ℕ) → level ≢ 6 → clamp level ≡ min level 5
unfolding clamp
clamp-min level ne = ground arith

heard :
    (level log_lvl : ℕ)
    → (ltb log_lvl level && level != log_error && level != log_fatal) ≡ false
    → (level ≤ log_lvl) ⊎ (level ≤ 1)
heard level log_lvl loud = elim (Bool-cases (ltb log_lvl level)) [
  | inl above ↦ inr (ground arith)
  | inr within ↦ inl (ground arith)
]

clamp_max : clamp 6 ≡ 6
unfolding clamp
clamp_max = refl

-- Three cases exclude each other. A message whose level is above the one in force, and is neither
-- an error nor fatal, writes nothing. Of the others, that of the level LOG_MAX itself reads outside
-- of the colours. The rest are at most at the level in force, or errors or fatal: they are written
-- as messages of their level, or of LOG_MAX - 1 if it is above that, in its colour, and the machine
-- stops behind such a message if and only if it is fatal.
pub log_lem :
    (level log_lvl : ℕ) (pfx buf : List ℕ)
    → ((log_lvl < level) × (1 < level) × (log level log_lvl pfx buf ≡ some ([], false)))
      ⊎ (((level ≡ 6) × (6 ≤ log_lvl) × (log level log_lvl pfx buf ≡ none))
          ⊎ ((level ≢ 6)
              × ((level ≤ log_lvl) ⊎ (level ≤ 1))
              × ((color : List ℕ) × (color_at colors (min level 5) ≡ some color)
                  × (log level log_lvl pfx buf
                      ≡ some (log_text color pfx buf (min level 5), level == 0)))))
unfolding log
log_lem level log_lvl pfx buf =
    elim (Bool-cases (ltb log_lvl level && level != log_error && level != log_fatal)) [
      | inl quiet ↦ inl (ground arith, ground arith, rw quiet refl)
      | inr loud ↦ inr (elim (Bool-cases (level == 6)) [
        | inl e ↦
            let six : level ≡ 6 = ground arith in inl (six, ground arith, rw loud (rw six refl))
        | inr e ↦
            let (c, found) = color_found (clamp level) (clamp-lt level (ground arith)) in
            let cut = clamp-min level (ground arith) in
            inr (
              ground arith,
              heard level log_lvl loud,
              (
                c,
                ap (λ (l : ℕ). color_at colors l) (sym cut) ∙ found,
                rw (loud, found, clamp_fatal level) refl
                    ∙ ap (λ (l : ℕ). some (log_text c pfx buf l, level == 0)) cut,
              ),
            )
      ])
    ]
