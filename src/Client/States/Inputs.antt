-- ===== src/Client/States/Inputs.antt =====
-- The client while no line that it reads ends it.
use ggs.Prelude.{ℕ, suc, ◌+◌, ◌≡◌, refl, false, List, [], ◌∷◌, arith}
use ggs.Client.Command.{Commands, exec}
use ggs.Client.States.{Input, interrupt, eof, line, running, play, run_play}

-- None of the lines ends the client, whatever the commands before it did.
module _ {S : Type 0} (cs : Commands S) where
  abbrev pub NoExit : List Input → Type 0
  NoExit [] = Unit {0}
  NoExit (line l ∷ inputs) = ((s : S) → (exec cs l s).0 ≡ false) × NoExit inputs
  NoExit (interrupt ∷ inputs) = NoExit inputs
  NoExit (eof ∷ inputs) = NoExit inputs

  abbrev pub eofs : List Input → ℕ
  eofs [] = 0
  eofs (eof ∷ inputs) = suc (eofs inputs)
  eofs (interrupt ∷ inputs) = eofs inputs
  eofs (line l ∷ inputs) = eofs inputs

  play_runs :
      (inputs : List Input) (k : ℕ) (s : S)
      → NoExit inputs
      → ((play cs inputs k s).0 ≡ running) × ((play cs inputs k s).1 ≡ eofs inputs + k)
  unfolding play
  play_runs [] k s h = (refl, omega arith)
  play_runs (interrupt ∷ inputs) k s h = play_runs inputs k s h
  play_runs (eof ∷ inputs) k s h =
      let (r, t) = play_runs inputs (suc k) s h in (r, omega (arith, t))
  play_runs (line l ∷ inputs) k s h = rw (play, h.0 s) (play_runs inputs k (exec cs l s).1 h.1)

  -- Without a line that ends the client it goes on, whatever the ends of input, and every end of input
  -- starts another goroutine that sends heartbeats.
  run_play-eofs :
      (inputs : List Input) (s : S)
      → NoExit inputs
      → ((run_play cs inputs s).0 ≡ running) × ((run_play cs inputs s).1 ≡ eofs inputs + 1)
  run_play-eofs inputs s h = play_runs inputs 1 s h
