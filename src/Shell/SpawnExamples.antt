-- ===== src/Shell/SpawnExamples.antt =====
-- Runs of the pipelines of ps5/shellp.c, on a table of descriptors that is a list.
use cse.Base.{
  if◌then◌else◌, ℕ, zero, suc, ◌<◌, ◌≡◌, ◌≢◌, ◌^◌, Option, none, some, none_ne_some, List, [], ◌∷◌,
  refl, arith, length,
}
use cse.Shell.Redirect.{no_redirects}
use cse.Shell.Command.{Stage, Command, pipeline_cmd}
use cse.Shell.Pipeline.{Pipes, wire, setup_command_pipeline}
use cse.Shell.Spawn.{
  Kernel, ObeysPosix, runs, no_program, spawn_pipeline, shells, file_of, all_missing,
  spawn_pipeline-shells,
}
use cse.Shell.Handed.{Ready}
use cse.Shell.Kept.{is_end}
use cse.Shell.Piped.{spawn_pipeline-connects, spawn_pipeline-closes}

abbrev at : List (Option ℕ) → ℕ → Option ℕ
at [] n = none
at (x ∷ t) zero = x
at (x ∷ t) (suc n) = at t n

close : List (Option ℕ) → ℕ → List (Option ℕ)
close [] n = []
close (x ∷ t) zero = none ∷ t
close (x ∷ t) (suc n) = x ∷ close t n

put : ℕ → List (Option ℕ) → List (Option ℕ)
put f [] = some f ∷ []
put f (none ∷ t) = some f ∷ t
put f (some g ∷ t) = some g ∷ put f t

put_found : Option ℕ → List (Option ℕ) → List (Option ℕ)
put_found none t = t
put_found (some f) t = put f t

abbrev listed : Kernel
listed = record {
  File = ℕ;
  Table = List (Option ℕ);
  at = at;
  close = close;
  dup = λ t fd. put_found (at t fd) t;
}

close_same : (t : List (Option ℕ)) (fd : ℕ) → at (close t fd) fd ≡ none
unfolding close
close_same [] fd = refl
close_same (x ∷ t) zero = refl
close_same (x ∷ t) (suc fd) = close_same t fd

close_other : (t : List (Option ℕ)) (fd n : ℕ) → n ≢ fd → at (close t fd) n ≡ at t n
unfolding close
close_other [] fd n h = refl
close_other (x ∷ t) zero zero h = absurd (h refl)
close_other (x ∷ t) zero (suc n) h = refl
close_other (x ∷ t) (suc fd) zero h = refl
close_other (x ∷ t) (suc fd) (suc n) h = close_other t fd n (λ e. h (omega (arith, e)))

module _ (f : ℕ) where
  put_lowest :
      (t : List (Option ℕ)) (n : ℕ)
      → at t n ≡ none
      → ((m : ℕ) → m < n → (g : ℕ) × (at t m ≡ some g))
      → at (put f t) n ≡ some f
  unfolding put
  put_lowest [] zero e low = refl
  put_lowest [] (suc n) e low = none_ne_some (low 0 (omega arith)).1
  put_lowest (none ∷ t) zero e low = refl
  put_lowest (none ∷ t) (suc n) e low = none_ne_some (low 0 (omega arith)).1
  put_lowest (some g ∷ t) zero e low = cc
  put_lowest (some g ∷ t) (suc n) e low = put_lowest t n e (λ m h. low (suc m) (omega (arith, h)))

  put_other :
      (t : List (Option ℕ)) (n m : ℕ)
      → at t n ≡ none
      → ((l : ℕ) → l < n → (g : ℕ) × (at t l ≡ some g))
      → m ≢ n
      → at (put f t) m ≡ at t m
  unfolding put
  put_other [] zero zero e low h = absurd (h refl)
  put_other [] zero (suc m) e low h = refl
  put_other [] (suc n) m e low h = none_ne_some (low 0 (omega arith)).1
  put_other (none ∷ t) zero zero e low h = absurd (h refl)
  put_other (none ∷ t) zero (suc m) e low h = refl
  put_other (none ∷ t) (suc n) m e low h = none_ne_some (low 0 (omega arith)).1
  put_other (some g ∷ t) zero m e low h = cc
  put_other (some g ∷ t) (suc n) zero e low h = refl
  put_other (some g ∷ t) (suc n) (suc m) e low h =
      put_other t n m e (λ l k. low (suc l) (omega (arith, k))) (λ q. h (omega (arith, q)))

listed-ObeysPosix : ObeysPosix listed
unfolding put_found
listed-ObeysPosix = record {
  close_same = close_same;
  close_other = close_other;
  dup_lowest = λ t fd n f e free low. rw e (put_lowest f t n free low);
  dup_other = λ t fd n m f e free low h. rw e (put_other f t n m free low h);
}

abbrev stage : Stage
stage = record { args = some (b'a' ∷ []) ∷ none ∷ []; fdin = none; fdout = none }

-- "a | a", with the pipe's ends at 3 and 4
abbrev two : Command
two = record {
  kind = pipeline_cmd;
  com_text = [];
  mode = no_redirects;
  args = [];
  stages = stage ∷ stage ∷ [];
}

abbrev pipes : Pipes
pipes k = (3, 4)

abbrev opened : List (Option ℕ)
opened = some 10 ∷ some 11 ∷ some 12 ∷ some 13 ∷ some 14 ∷ []

two-Ready : Ready listed opened (setup_command_pipeline pipes 7 8 two)
unfolding setup_command_pipeline wire
two-Ready = (
  tt,
  (omega arith, (14, refl)),
  tt,
  ((tt, tt), tt),
  (((λ e. omega (arith, e)), tt), tt),
  ((omega arith, (13, refl)), tt, tt, tt, tt, tt),
)

spawn_pipeline-connects_example :
    (file_of listed 1 (spawn_pipeline listed (λ k. runs) pipes 7 8 two opened) 0
      ≡ some (listed.at opened 4))
    × (file_of listed 0 (spawn_pipeline listed (λ k. runs) pipes 7 8 two opened) 1
        ≡ some (listed.at opened 3))
    × (file_of listed 3 (spawn_pipeline listed (λ k. runs) pipes 7 8 two opened) 0
        ≡ some (listed.at opened 3))
spawn_pipeline-connects_example =
    spawn_pipeline-connects listed listed-ObeysPosix (λ k. runs) (λ k. refl) pipes 7 8 two opened
      (10, refl) (11, refl) two-Ready 0 (omega arith)

spawn_pipeline-closes_example :
    (after : List (Option ℕ)) × (shells listed
        (spawn_pipeline listed (λ k. runs) pipes 7 8 two opened)
      ≡ after ∷ [])
    × ((n : ℕ)
        → listed.at after n
          ≡ (if is_end (setup_command_pipeline pipes 7 8 two) n then none else listed.at opened n))
spawn_pipeline-closes_example =
    spawn_pipeline-closes listed listed-ObeysPosix (λ k. runs) (λ k. refl) pipes 7 8 two opened

spawn_pipeline-shells_example :
    length (shells listed (spawn_pipeline listed (λ k. no_program) pipes 7 8 two opened))
    ≡ 2 ^ all_missing (λ k. no_program) 0 (setup_command_pipeline pipes 7 8 two)
spawn_pipeline-shells_example = spawn_pipeline-shells listed (λ k. no_program) pipes 7 8 two opened
