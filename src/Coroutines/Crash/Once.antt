-- ===== src/Coroutines/Crash/Once.antt =====
-- A crash is not reported twice.
use go_lib.Base.{
  if_cases, ℕ, suc, ◌+◌, ◌-◌, ◌≡◌, refl, ap, true, false, List, [], ◌∷◌, ◌++◌, none, length,
  length-append, drop, nat_beq, inl, inr, ◌⊎◌, arith,
}
use go_lib.Coroutines.Crash.{
  codes, has_suffix, crash_file_suffix, uploaded_suffix, File, CrashConfig, Outside,
  parse_crash_file, is_candidate, renamed, kept, handle, is_stale, cleanup_uploaded, handle_all,
  report_pending_crashes,
}

drop-append {ℓ} :
    {A : Type ℓ} (xs ys : List A) (k : ℕ) → drop (length xs + k) (xs ++ ys) ≡ drop k ys
drop-append [] ys k = let e : 0 + k ≡ k = omega arith in rw e refl
drop-append (x ∷ xs) ys k =
    let e : suc (length xs) + k ≡ suc (length xs + k) = omega arith in rw e (drop-append xs ys k)

-- A file that was renamed does not end as a crash file does.
has_suffix-uploaded :
    (name : List ℕ) → has_suffix (name ++ uploaded_suffix) crash_file_suffix ≡ false
has_suffix-uploaded name =
    let e : length (name ++ uploaded_suffix) - 6 ≡ length name + 3 =
      omega (arith, length-append name uploaded_suffix) in
    let tail : drop (length name + 3) (name ++ uploaded_suffix) ≡ codes "loaded" =
      drop-append name uploaded_suffix 3 in
    ground (arith, ap (λ n. drop n (name ++ uploaded_suffix)) e)

is_candidate-renamed :
    (c : CrashConfig) (f : File)
    → is_candidate c (record f { name = f.name ++ uploaded_suffix }) ≡ false
unfolding is_candidate
is_candidate-renamed c f = ground (arith, has_suffix-uploaded f.name)

handle-other :
    (c : CrashConfig) (o : Outside) (f : File)
    → is_candidate c f ≡ false
    → handle c o f ≡ kept f none
unfolding handle
handle-other c o f e = rw e refl

renamed-file :
    (o : Outside) (f : File)
    → ((renamed o f).file ≡ f)
      ⊎ ((renamed o f).file ≡ record f { name = f.name ++ uploaded_suffix })
unfolding renamed
renamed-file o f = ground arith

renamed-moves :
    (o : Outside) (f : File)
    → (renamed o f).error ≡ none
    → (renamed o f).file ≡ record f { name = f.name ++ uploaded_suffix }
unfolding renamed
renamed-moves o f e = ground arith

uploaded-renamed : (o : Outside) (f : File) → (renamed o f).uploaded ≡ false
unfolding renamed
uploaded-renamed o f = ground arith

handle-empty :
    (c : CrashConfig) (o : Outside) (f : File)
    → nat_beq (length (parse_crash_file c.max_file_bytes f).raw) 0 ≡ true
    → (handle c o f).uploaded ≡ false
unfolding handle
handle-empty c o f e = ground (arith, uploaded-renamed o f)

-- After a file was handled without an error: it is the file, not a candidate or empty, or it has its
-- new name.
handle-settles :
    (c : CrashConfig) (o : Outside) (f : File)
    → (handle c o f).error ≡ none
    → (((handle c o f).file ≡ f)
        × ((is_candidate c f ≡ false)
            ⊎ (nat_beq (length (parse_crash_file c.max_file_bytes f).raw) 0 ≡ true)))
      ⊎ ((handle c o f).file ≡ record f { name = f.name ++ uploaded_suffix })
unfolding handle
handle-settles c o f ok = elim (renamed-file o f) [
  | inl same ↦ ground (arith, renamed-moves o f)
  | inr moved ↦ ground (arith, renamed-moves o f)
]

uploaded-other :
    (c : CrashConfig) (o : Outside) (f : File)
    → is_candidate c f ≡ false
    → (handle c o f).uploaded ≡ false
uploaded-other c o f e = rw (handle-other c o f e) refl

uploaded-again :
    (c : CrashConfig) (o o' : Outside) (f : File)
    → (handle c o f).error ≡ none
    → (handle c o' (handle c o f).file).uploaded ≡ false
uploaded-again c o o' f ok = elim (handle-settles c o f ok) [
  | inl (same, inl other) ↦ rw same (uploaded-other c o' f other)
  | inl (same, inr empty) ↦ rw same (handle-empty c o' f empty)
  | inr moved ↦ rw moved (uploaded-other c o' _ (is_candidate-renamed c f))
]

abbrev NoneUploads : CrashConfig → Outside → List File → Type 0
NoneUploads c o [] = Unit
NoneUploads c o (f ∷ fs) = ((handle c o f).uploaded ≡ false) × NoneUploads c o fs

handle_all-NoneUploads :
    (c : CrashConfig) (o o' : Outside) (fs : List File)
    → (handle_all c o fs).2 ≡ none
    → NoneUploads c o' (handle_all c o fs).0
handle_all-NoneUploads c o o' [] ok = tt
handle_all-NoneUploads c o o' (f ∷ fs) ok =
    let first : (handle c o f).error ≡ none = ground arith in
    let later : (handle_all c o fs).2 ≡ none = ground arith in
    (uploaded-again c o o' f first, handle_all-NoneUploads c o o' fs later)

cleanup_uploaded-NoneUploads :
    (c : CrashConfig) (o o' : Outside) (fs : List File)
    → NoneUploads c o' fs
    → NoneUploads c o' (cleanup_uploaded c o fs)
unfolding cleanup_uploaded
cleanup_uploaded-NoneUploads c o o' [] n = tt
cleanup_uploaded-NoneUploads c o o' (f ∷ fs) n =
    let rest = cleanup_uploaded c o fs in
    let ih = cleanup_uploaded-NoneUploads c o o' fs n.1 in
    let kept_too : NoneUploads c o' (f ∷ rest) = (n.0, ih) in
    if_cases (NoneUploads c o') (is_stale c o f) rest (f ∷ rest) (λ old. ih) (λ young. kept_too)

uploads-none :
    (c : CrashConfig) (o : Outside) (fs : List File)
    → NoneUploads c o fs
    → (handle_all c o fs).1 ≡ []
uploads-none c o [] n = refl
uploads-none c o (f ∷ fs) n = rw (n.0) (uploads-none c o fs n.1)

-- After a report that returned no error, the next report of the process uploads nothing, whatever
-- its reads, uploads and renames would answer: no crash is reported twice.
pub report-again :
    (c : CrashConfig) (o o' : Outside) (dir : List File)
    → (report_pending_crashes c o dir).2 ≡ none
    → (report_pending_crashes c o' (report_pending_crashes c o dir).0).1 ≡ []
unfolding report_pending_crashes
report-again c o o' dir ok = uploads-none c o' (cleanup_uploaded c o (handle_all c o dir).0) (
    cleanup_uploaded-NoneUploads c o o' (handle_all c o dir).0
      (handle_all-NoneUploads c o o' dir ok))
