-- ===== src/Keyboard/Served.antt =====
-- What the keyboard of src/keyboard.c and the processes that read the console do with a character.
use muos.Common.{ℕ, ◌<◌, ◌≡◌, Bool, not, ◌&&◌, ◌||◌, ◌⊎◌, List, [], ◌∷◌, ◌++◌, ◌==◌, if◌then◌else◌}
use muos.Keyboard.{Keyboard, Sleeper, Console, hand_over}
use muos.Keyboard.Ring.{IsKeyboard, waiting, typed}

-- The process is blocked in a read of a console with a buffer.
abbrev pub wants : Sleeper → Bool
wants r = r.asleep && not ((r.blk_ptr == 0) || (r.blk_len == 0))

-- The characters are handed out, oldest first, one to each process that wants one, in the order of the
-- table. Returns the characters that are left over.
pub serve : List ℕ → List Sleeper → List ℕ × List Sleeper
serve cs [] = (cs, [])
serve [] (r ∷ rs) = ([], r ∷ rs)
serve (c ∷ cs) (r ∷ rs) =
    let (left, served) = serve cs rs in
    let (left', passed) = serve (c ∷ cs) rs in
    if wants r then (left, hand_over c r ∷ served) else (left', r ∷ passed)

-- What the processes and the keyboard are after the wake-up.
abbrev Served : List ℕ → List Sleeper → Keyboard × List Sleeper → Type 0
Served cs rs (k, rs') = IsKeyboard k × ((typed k, rs') ≡ serve cs rs)

-- What became of a character that is typed.
abbrev pub Put : ℕ → Console → Console → Type 0
Put c s s' =
    IsKeyboard s'.keyboard
    × (((waiting s.keyboard < 255)
          × ((typed s'.keyboard, s'.sleepers) ≡ serve (typed s.keyboard ++ (c ∷ [])) s.sleepers))
        ⊎ ((waiting s.keyboard ≡ 255) × (s' ≡ s)))
