-- ===== src/Cache/Tests.antt =====
-- A cache of numbers of internal/platform/redisx: a writer puts 8 in place of 7.
use chirpy.Prelude.{ℕ, ◌≡◌, refl, false, none, some, arith}
use chirpy.Cache.Versioned.{Reply, got, failed, load}
use chirpy.Cache.Readers.{
  resting, versioned, loaded, System, with_reader, committed, invalidated, finished, Run, idle,
  then_step, commits, invalidates, reads_version, loads_row, puts,
}
use chirpy.Cache.Fresh.{load_fresh}

abbrev seven : System ℕ
seven = record {
  entry = record { value = none; ver = none };
  row = 7;
  owed = 0;
  readers = λ r. resting;
}

-- The reader 0 loads the old row, and puts it after the writer has invalidated.
abbrev reading : System ℕ
reading = with_reader (with_reader seven 0 (versioned 0)) 0 (loaded 0 7)

abbrev after : System ℕ
after = finished (invalidated (committed reading 8)) 0 0 7

slow_reader : Run false seven after
unfolding committed invalidated
slow_reader =
    then_step
      (then_step
        (then_step
          (then_step (then_step (idle seven) (reads_version seven 0 refl))
            (loads_row (with_reader seven 0 (versioned 0)) 0 0 refl))
          (commits reading 8))
        (invalidates (committed reading 8) (omega arith)))
      (puts (invalidated (committed reading 8)) 0 0 7 refl)

load_fresh_example :
    ((load false false false (got after.row) after.entry).0 ≡ got after.row)
    × ((x : ℕ)
        → (load false false false (got after.row) after.entry).1.value ≡ some x
        → x ≡ after.row)
unfolding finished invalidated committed
load_fresh_example = load_fresh seven after false false false refl (λ r. refl) slow_reader refl

abbrev no_row : Reply ℕ
no_row = failed
