-- ===== src/Startup/CrashDump/Names.antt =====
-- The names of dumps.
use rtcvpn.Common.{
  ℕ, ◌≤◌, ◌≡◌, ◌≢◌, ◌∙◌, refl, sym, ap, arith, zero, suc, List, [], ◌∷◌, ◌++◌, true, length, take,
}
use mathlib.Core.List.{append_cancel_left, append_cancel_right}
use rtcvpn.Startup.CrashDump.{
  CrashDump, create_file, write_dump, close_handle, full_name, make_dump_file_name, write_dump_now,
  used_by_hand, use_dir, before_time, after_time,
}

take_all : (n : ℕ) (xs : List ℕ) → length xs ≤ n → take n xs ≡ xs
take_all zero [] h = refl
take_all zero (x ∷ xs) h = absurd (omega arith)
take_all (suc n) [] h = refl
take_all (suc n) (x ∷ xs) h = ap (◌∷◌ x) (take_all n xs (omega arith))

names_differ :
    (pid : ℕ) (now later reason : List ℕ) (s : CrashDump)
    → length (full_name pid now reason s) ≤ 255
    → length (full_name pid later reason s) ≤ 255
    → now ≢ later
    → make_dump_file_name pid now reason s ≢ make_dump_file_name pid later reason s
unfolding make_dump_file_name
names_differ pid now later reason s short short' differ e =
    let whole : full_name pid now reason s ≡ full_name pid later reason s =
      sym (take_all 255 (full_name pid now reason s) short)
      ∙ e
      ∙ take_all 255 (full_name pid later reason s) short' in
    differ (
      append_cancel_right now later (after_time pid reason) (
        append_cancel_left (before_time s) (now ++ after_time pid reason)
          (later ++ after_time pid reason) whole))

-- WriteDumpNow with names that are not cut, where the time has changed between the two calls: the
-- path that it returns is not that of the file that it wrote.
pub path_of_other_file :
    (pid : ℕ) (now later reason : List ℕ) (s : CrashDump) (c : ℕ) (cs : List ℕ)
    → s.dump_dir ≡ c ∷ cs
    → length (full_name pid now reason s) ≤ 255
    → length (full_name pid later reason s) ≤ 255
    → now ≢ later
    → (file : List ℕ) × ((write_dump_now
          (record { creates = true; writes = true })
          pid
          now
          later
          reason
          s).2
        ≡ create_file file ∷ write_dump ∷ close_handle ∷ [])
      × ((write_dump_now (record { creates = true; writes = true }) pid now later reason s).0
          ≢ file)
unfolding write_dump_now
path_of_other_file pid now later reason s c cs dir short short' differ =
    let same : used_by_hand s ≡ s = ap (λ d. use_dir d s) dir in
    (
      make_dump_file_name pid later reason s,
      ap
          (λ u.
            create_file (make_dump_file_name pid later reason u) ∷ write_dump ∷ close_handle ∷ [])
          same,
      λ e.
          names_differ pid now later reason s short short' differ
            (sym (ap (make_dump_file_name pid now reason) same) ∙ e),
    )
