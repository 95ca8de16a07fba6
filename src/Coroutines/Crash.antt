-- ===== src/Coroutines/Crash.antt =====
-- common/coroutines/crash.go: ReportPendingCrashes over a directory that is a list of files, by name.
-- Names and contents are bytes. What the file system and the uploader answer is a parameter.
pub mod Once
use Prim.Native.Char.{code}
use Prim.Native.String.{String}
use go_lib.Base.{
  ℕ, zero, suc, ◌+◌, ◌-◌, ◌*◌, ◌^◌, Bool, true, false, not, ◌&&◌, ◌||◌, List, [], ◌∷◌, ◌++◌, Option,
  none, some, length, take, drop, is_some, ltb, leb, nat_beq, if◌then◌else◌,
}

abbrev pub codes : String → List ℕ
codes String.[] = []
codes (String.◌∷◌ c s) = code c ∷ codes s

abbrev pub same_bytes : List ℕ → List ℕ → Bool
same_bytes [] [] = true
same_bytes [] (y ∷ ys) = false
same_bytes (x ∷ xs) [] = false
same_bytes (x ∷ xs) (y ∷ ys) = nat_beq x y && same_bytes xs ys

-- `strings.HasSuffix`, `TrimSuffix` and `IndexByte`; an index of -1 is none.
abbrev pub has_suffix : List ℕ → List ℕ → Bool
has_suffix s suffix =
    leb (length suffix) (length s) && same_bytes (drop (length s - length suffix) s) suffix

abbrev pub trim_suffix : List ℕ → List ℕ → List ℕ
trim_suffix s suffix = if has_suffix s suffix then take (length s - length suffix) s else s

abbrev pub index_byte : List ℕ → ℕ → Option ℕ
index_byte [] c = none
index_byte (x ∷ xs) c =
    if nat_beq x c then some 0 else (elim (index_byte xs c) [ none ↦ none | some i ↦ some (suc i) ])

-- `strconv.Atoi` of a text without a minus sign.
abbrev pub digits : ℕ → List ℕ → Option ℕ
digits acc [] = some acc
digits acc (c ∷ cs) =
    let rest = digits (acc * 10 + (c - 48)) cs in if leb 48 c && leb c 57 then rest else none

abbrev pub atoi_digits : List ℕ → Option ℕ
atoi_digits [] = none
atoi_digits (c ∷ cs) = elim (digits 0 (c ∷ cs)) [
  | none ↦ none
  | some n ↦ if ltb n 9223372036854775808 then some n else none
]

abbrev pub atoi : List ℕ → Option ℕ
atoi [] = none
atoi (c ∷ cs) = if nat_beq c 43 then atoi_digits cs else atoi_digits (c ∷ cs)

abbrev pub crash_file_suffix : List ℕ
crash_file_suffix = codes ".crash"

abbrev pub uploaded_suffix : List ℕ
uploaded_suffix = codes ".uploaded"

unfoldable pub pid_from_name : List ℕ → ℕ
pid_from_name name =
    let base = trim_suffix name crash_file_suffix in
    elim (index_byte base 45) [
      | none ↦ 0
      | some zero ↦ 0
      | some (suc i) ↦ elim (atoi (take (suc i) base)) [ none ↦ 0 | some pid ↦ pid ]
    ]

pub record File : Type 0 where
  pub name : List ℕ
  pub is_dir : Bool
  pub content : List ℕ
  pub mod_time : ℕ

-- The fields of a `CrashRecord` that come from the file.
pub record CrashRecord : Type 0 where
  pub file : List ℕ
  pub pid : ℕ
  pub raw : List ℕ
  pub truncated : Bool

-- A positive limit of bytes, or none; the process's own pid; and how long uploaded files are kept.
pub record CrashConfig : Type 0 where
  pub max_file_bytes : Option ℕ
  pub current_pid : ℕ
  pub keep_uploaded : ℕ

-- The errors of opening or reading a file, of the uploader and of a rename, by the file's name; and
-- the time.
pub record Outside : Type 0 where
  pub read_error : List ℕ → Option String
  pub upload : CrashRecord → Option String
  pub rename : List ℕ → Option String
  pub now : ℕ

unfoldable pub parse_crash_file : Option ℕ → File → CrashRecord
unfolding pid_from_name
parse_crash_file limit f =
    let cut : Bool = elim limit [ none ↦ false | some n ↦ ltb n (length f.content) ] in
    let size : ℕ = elim limit [
      | none ↦ length f.content
      | some n ↦ if cut then n else length f.content
    ] in
    record { file = f.name; pid = pid_from_name f.name; raw = take size f.content; truncated = cut }

-- Whether the first loop keeps a file.
unfoldable pub is_candidate : CrashConfig → File → Bool
unfolding pid_from_name
is_candidate c f =
    not f.is_dir
    && has_suffix f.name crash_file_suffix
    && not (nat_beq (pid_from_name f.name) c.current_pid && not (nat_beq c.current_pid 0))

-- What the second loop makes of a file: the file, whether it was uploaded, and the error that counts.
pub record Handled : Type 0 where
  pub file : File
  pub uploaded : Bool
  pub error : Option String

unfoldable pub renamed : Outside → File → Handled
renamed o f = elim (o.rename f.name) [
  | some e ↦ record { file = f; uploaded = false; error = some e }
  | none ↦ record {
    file = record f { name = f.name ++ uploaded_suffix };
    uploaded = false;
    error = none;
  }
]

abbrev pub kept : File → Option String → Handled
kept f e = record { file = f; uploaded = false; error = e }

unfoldable pub handle : CrashConfig → Outside → File → Handled
handle c o f =
    let rec = parse_crash_file c.max_file_bytes f in
    if not (is_candidate c f)
    then kept f none
    else if is_some (o.read_error f.name)
    then kept f (o.read_error f.name)
    else if nat_beq (length rec.raw) 0
    then record (renamed o f) { error = none }
    else if is_some (o.upload rec)
    then kept f (o.upload rec)
    else record (renamed o f) { uploaded = true }

-- `cleanupUploaded`; a file is as old as its modification time says.
unfoldable pub is_stale : CrashConfig → Outside → File → Bool
is_stale c o f =
    ltb 0 c.keep_uploaded
    && not f.is_dir
    && has_suffix f.name (crash_file_suffix ++ uploaded_suffix)
    && ltb (f.mod_time + c.keep_uploaded) o.now

unfoldable pub cleanup_uploaded : CrashConfig → Outside → List File → List File
cleanup_uploaded c o [] = []
cleanup_uploaded c o (f ∷ fs) =
    let rest = cleanup_uploaded c o fs in if is_stale c o f then rest else f ∷ rest

abbrev pub first_error : Option String → Option String → Option String
first_error none later = later
first_error (some e) later = some e

-- The two loops of `ReportPendingCrashes`, and their files, uploads and first error.
abbrev pub handle_all :
    CrashConfig → Outside → List File → List File × List (List ℕ) × Option String
handle_all c o [] = ([], [], none)
handle_all c o (f ∷ fs) =
    let h = handle c o f in
    let (files, names, err) = handle_all c o fs in
    (h.file ∷ files, (if h.uploaded then f.name ∷ names else names), first_error h.error err)

unfoldable pub report_pending_crashes :
    CrashConfig → Outside → List File → List File × List (List ℕ) × Option String
unfolding handle cleanup_uploaded
report_pending_crashes c o dir =
    let (files, names, err) = handle_all c o dir in (cleanup_uploaded c o files, names, err)
