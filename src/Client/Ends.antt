-- ===== src/Client/Ends.antt =====
-- The loop of `main` ends with the input.
use network_file_system.Prelude.{
  ℕ, zero, suc, ◌-◌, ◌<◌, ◌≤◌, ◌≡◌, ◌≢◌, refl, sym, ap, ◌∙◌, none, some, Option-cases, inl, inr,
  arith, [], ◌∷◌, Bytes, codes, c_string, length,
}
use network_file_system.Naming.World.{buffer_size}
use network_file_system.Transfer.Send.{◌>>=◌, ◌>>◌}
use network_file_system.Client.World.{printed, Host, World, Control, next_command, left}
use network_file_system.Client.Text.{fgets}
use network_file_system.Client.Loop.{out_of_fuel, run_line, next_line, go_on, main_loop}
use network_file_system.Client.Shrinks.{Shrinks, Within-some, List-cases, Shrinks-run_line}

length-fgets : (n : ℕ) (text : Bytes) → length (fgets n text).1 ≤ length text
unfolding fgets
length-fgets zero text = omega arith
length-fgets (suc n) [] = omega arith
length-fgets (suc n) (c ∷ cs) = ground (arith, length-fgets n cs)

-- A line that is read is not empty.
length-fgets_line : (n c : ℕ) (cs : Bytes) → length (fgets (suc n) (c ∷ cs)).1 ≤ length cs
unfolding fgets
length-fgets_line n c cs = ground (arith, length-fgets n cs)

module _ (host : Host) where
  -- How the loop goes on behind a command.
  go_on-ends :
      (fuel : ℕ) (control : Control) (w w' : World)
      → ((v : World) → length v.input < fuel → main_loop host fuel v ≢ some (out_of_fuel, w'))
      → length w.input < fuel
      → go_on host (main_loop host fuel) control w ≢ some (out_of_fuel, w')
  go_on-ends fuel left w w' h short e = cc
  go_on-ends fuel next_command w w' h short e = h w short e

  -- Where every receive ends, the loop of `main` does not run out of fuel, of which it has more than the
  -- input has bytes.
  pub main_loop-ends :
      (fuel : ℕ) (w w' : World)
      → length w.input < fuel
      → main_loop host fuel w ≢ some (out_of_fuel, w')
  unfolding Shrinks main_loop next_line
  main_loop-ends zero w w' h e = omega arith
  main_loop-ends (suc fuel) w w' h e = elim (List-cases w.input) [
    | inl nothing ↦
        let ended : main_loop host (suc fuel) w ≢ some (out_of_fuel, w') =
          λ k. let bad = rw (main_loop, ◌>>=◌, ◌>>◌, next_line, nothing) at k in cc in
        ended e
    | inr (c, cs, line) ↦
        let text = c_string (fgets (buffer_size - 1) (c ∷ cs)).0 in
        let v : World = record w {
          input = (fgets (buffer_size - 1) (c ∷ cs)).1;
          events = printed (codes ">> ") ∷ w.events;
        } in
        let shorter : length v.input ≤ length cs = length-fgets_line 1022 c cs in
        let longer : length w.input ≡ suc (length cs) = ap length line in
        let step : main_loop host (suc fuel) w
            ≡ (run_line host text >>= (λ control. go_on host (main_loop host fuel) control)) v =
          rw (main_loop, ◌>>=◌, ◌>>◌, next_line, line) refl in
        elim (Option-cases (run_line host text v)) [
          | inl none_ ↦
              let bad : none ≡ some (out_of_fuel, w') = rw (◌>>=◌, none_) at (sym step ∙ e) in cc
          | inr ((control, w2), ran) ↦
              let within : length w2.input ≤ length v.input =
                Within-some v w2 control (run_line host text v) ran
                  (Shrinks-run_line host text v) in
              go_on-ends fuel control w2 w' (λ u. main_loop-ends fuel u w')
                (omega (arith, h, within, shorter, longer)) (rw (◌>>=◌, ran) at (sym step ∙ e))
        ]
  ]
