-- ===== src/Examples/Words.antt =====
-- Bytes, timers, terminal text and messages.
use prephv.Base.{
  length, ◌++◌, min, ℕ, ◌^◌, ◌-◌, inr, ◌≤◌, ◌<◌, ◌≡◌, ◌≢◌, refl, arith, false, ◌||◌, none, some,
  List, [], ◌∷◌, ◌==◌, ◌⊎◌,
}
use prephv.Time.{Req, time_enqueue_int, time_dequeue}
use prephv.Time.Queue.{IsOrdered, holds, enqueue_lem}
use prephv.Rom.Stdio.{rom_stdin, rom_stdin_split}
use prephv.Rom.Stdio.Terminal.{read_loop, IsRead, read_loop-IsRead}
use prephv.Log.Console.{Answer, Opal, IsConsole}
use prephv.Endian.{swab64}
use prephv.Log.{log, log_text, colors, color_at}
use prephv.Log.Levels.{log_lem}

abbrev timer : ℕ → ℕ → Req
timer i w = record { id = i; when = w }

abbrev queue : List Req
queue = timer 1 10 ∷ timer 2 20 ∷ timer 3 20 ∷ timer 4 30 ∷ []

enqueue_lem_example :
    IsOrdered 0 (time_enqueue_int (timer 5 20) queue)
    × ((id : ℕ) → holds id (time_enqueue_int (timer 5 20) queue) ≡ (5 == id || holds id queue))
    × (time_dequeue (timer 5 20) (time_enqueue_int (timer 5 20) queue) ≡ queue)
enqueue_lem_example =
    enqueue_lem (timer 5 20) 0 queue (omega arith)
      (omega arith, (omega arith, (omega arith, (omega arith, tt))))
      (omega arith, (omega arith, (omega arith, (omega arith, tt))))

rom_stdin_split_example :
    let first = rom_stdin 2 false (65 ∷ 27 ∷ 91 ∷ 66 ∷ []) in
    let second = rom_stdin 1 first.pending first.rest in
    (length first.out ≤ 2)
    × (rom_stdin 3 false (65 ∷ 27 ∷ 91 ∷ 66 ∷ [])
        ≡ record { out = first.out ++ second.out; pending = second.pending; rest = second.rest })
rom_stdin_split_example = rom_stdin_split 2 1 false (65 ∷ 27 ∷ 91 ∷ 66 ∷ [])

-- A console whose state is what was typed, and which answers with an error when there is nothing.
abbrev answer : List ℕ → Answer (List ℕ)
answer [] = record { ret = 2 ^ 64 - 3; len = 0; c = 0; terminal = [] }
answer (c ∷ cs) = record { ret = 0; len = swab64 1; c = c; terminal = cs }

abbrev a_console : Opal
a_console = record { Terminal = List ℕ; opal_read = λ len t. answer t; opal_write = λ len buf t. t }

answer_gives :
    (t : List ℕ) (c : ℕ) (cs : List ℕ)
    → t ≡ c ∷ cs
    → ((answer t).ret ≡ 0)
      × ((answer t).len ≡ swab64 1)
      × ((answer t).c ≡ c)
      × ((answer t).terminal ≡ cs)
answer_gives t c cs e = rw e (refl, refl, refl, refl)

answer_lacks :
    (t : List ℕ)
    → t ≡ []
    → (((answer t).ret ≢ 0) ⊎ ((answer t).len ≡ 0)) × ((answer t).terminal ≡ [])
answer_lacks t e = rw e (inr refl, refl)

abbrev a_console-IsConsole : IsConsole a_console
a_console-IsConsole = record { typed = λ t. t; gives = answer_gives; lacks = answer_lacks }

-- 3 bytes are asked for, and ESC [ is one.
read_loop-IsRead_example :
    IsRead a_console a_console-IsConsole
      (read_loop a_console 6 3 false (65 ∷ 27 ∷ 91 ∷ 66 ∷ 67 ∷ []))
      (rom_stdin 3 false (65 ∷ 27 ∷ 91 ∷ 66 ∷ 67 ∷ []))
read_loop-IsRead_example =
    read_loop-IsRead a_console a_console-IsConsole 3 6 false (65 ∷ 27 ∷ 91 ∷ 66 ∷ 67 ∷ [])
      (omega arith)

abbrev a_level : ℕ
a_level = 0

abbrev a_text : List ℕ
a_text = 72 ∷ 10 ∷ 73 ∷ []

log_lem_example :
    ((3 < a_level) × (1 < a_level) × (log a_level 3 [] a_text ≡ some ([], false)))
    ⊎ (((a_level ≡ 6) × (6 ≤ 3) × (log a_level 3 [] a_text ≡ none))
        ⊎ ((a_level ≢ 6)
            × ((a_level ≤ 3) ⊎ (a_level ≤ 1))
            × ((color : List ℕ) × (color_at colors (min a_level 5) ≡ some color)
                × (log a_level 3 [] a_text
                    ≡ some (log_text color [] a_text (min a_level 5), a_level == 0)))))
log_lem_example = log_lem a_level 3 [] a_text
