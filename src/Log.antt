-- ===== src/Log.antt =====
-- log.c and the output half of console.c. Characters are their codes, a string ends where its
-- list does, and what `vsnprintf` wrote to the buffer is an argument.
pub mod Console
pub mod Levels
use prephv.Base.{
  ℕ, zero, suc, ◌+◌, ◌-◌, ◌≤◌, ◌<◌, ◌≡◌, ◌≢◌, refl, arith, Bool, true, false, ◌&&◌, ◌||◌, Option,
  none, some, List, [], ◌∷◌, ◌++◌, ltb, leb, ◌==◌, ◌!=◌, if◌then◌else◌, ◌⊎◌, inl, inr, Bool-cases,
}

abbrev pub log_fatal : ℕ
log_fatal = 0

abbrev pub log_error : ℕ
log_error = 1

abbrev pub log_max : ℕ
log_max = 6

abbrev pub newline : ℕ
newline = 10

-- `_putchar` sends one character to the terminal of the firmware.
unfoldable pub con_putchar : ℕ → List ℕ
con_putchar c = c ∷ (if c == newline then 13 ∷ [] else [])

unfoldable pub con_puts : List ℕ → List ℕ
unfolding con_putchar
con_puts [] = []
con_puts (c ∷ s) = con_putchar c ++ con_puts s

-- ANSI_SET of a code of one or two digits
abbrev pub ansi_set : List ℕ → List ℕ
ansi_set code = 27 ∷ 91 ∷ (code ++ 109 ∷ [])

abbrev pub grey : List ℕ
grey = ansi_set (57 ∷ 48 ∷ [])

abbrev pub reset : List ℕ
reset = ansi_set (48 ∷ [])

abbrev pub colors : List (List ℕ)
colors =
    ansi_set (57 ∷ 49 ∷ [])
    ∷ ansi_set (57 ∷ 49 ∷ [])
    ∷ ansi_set (57 ∷ 51 ∷ [])
    ∷ ansi_set (57 ∷ 55 ∷ [])
    ∷ reset
    ∷ grey
    ∷ []

-- `colors[level]`, if the array has it
unfoldable pub color_at : List (List ℕ) → ℕ → Option (List ℕ)
color_at [] i = none
color_at (c ∷ cs) zero = some c
color_at (c ∷ cs) (suc i) = color_at cs i

-- "Fatal prephv error detected.", in black on red
abbrev pub fatal_text : List ℕ
fatal_text =
    70 ∷ 97 ∷ 116 ∷ 97 ∷ 108 ∷ 32 ∷ 112 ∷ 114 ∷ 101 ∷ 112 ∷ 104 ∷ 118 ∷ 32 ∷ 101 ∷ 114 ∷ 114 ∷ 111
    ∷ 114 ∷ 32 ∷ 100 ∷ 101 ∷ 116 ∷ 101 ∷ 99 ∷ 116 ∷ 101 ∷ 100 ∷ 46 ∷ []

-- The prefix at the start of a line.
unfoldable pub log_prefix : List ℕ → List ℕ → List ℕ
unfolding con_puts con_putchar
log_prefix color pfx =
    con_puts (grey ++ 91 ∷ []) ++ con_puts pfx ++ con_putchar 93 ++ con_puts color

-- The loop over the buffer: `first` holds at index 0.
unfoldable pub log_body : List ℕ → List ℕ → Bool → List ℕ → List ℕ
unfolding log_prefix con_putchar
log_body color pfx first [] = []
log_body color pfx first (c ∷ buf) =
    let rest = log_body color pfx false buf in
    if first || c == newline
    then (if c == newline
        then con_putchar c ++ log_prefix color pfx ++ rest
        else log_prefix color pfx ++ con_putchar c ++ rest)
    else con_putchar c ++ rest

-- All that reaches the terminal of a message of level `l`.
unfoldable pub log_text : List ℕ → List ℕ → List ℕ → ℕ → List ℕ
unfolding log_body con_puts
log_text color pfx buf l =
    con_puts color
    ++ log_body color pfx true buf
    ++ con_puts (reset ++ newline ∷ [])
    ++ (if l == log_fatal
        then con_puts (ansi_set (52 ∷ 49 ∷ []))
          ++ con_puts (ansi_set (51 ∷ 48 ∷ []))
          ++ con_puts fatal_text
          ++ con_puts (reset ++ newline ∷ [])
        else [])

-- The level that is used.
unfoldable pub clamp : ℕ → ℕ
clamp level = if ltb log_max level then log_max - 1 else level

-- What `_log` writes, and whether it then loops for ever; `none` if it reads outside of
-- `colors`.
unfoldable pub log : ℕ → ℕ → List ℕ → List ℕ → Option (List ℕ × Bool)
unfolding color_at log_text clamp
log level log_lvl pfx buf =
    if ltb log_lvl level && level != log_error && level != log_fatal
    then some ([], false)
    else (let l = clamp level in
        elim (color_at colors l) [
          | none ↦ none
          | some color ↦ some (log_text color pfx buf l, l == log_fatal)
        ])
