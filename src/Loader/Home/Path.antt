-- ===== src/Loader/Home/Path.antt =====
-- The path of the token file.
use sgx_nfv.Prelude.{
  ℕ, ◌+◌, ◌-◌, ◌≤◌, ◌≡◌, refl, ◌∙◌, ap, true, false, Option, none, some, [], ◌∷◌, ◌++◌, leb, arith,
  if◌then◌else◌, length, replicate, length-append, Outcome, done, fault, ◌>>=◌, Bool-cases, inl,
  inr,
}
use mathlib.Core.List.{append_assoc}
use sgx_nfv.Loader.{Bytes, Disk, Initialized, initialize_enclave}
use sgx_nfv.Loader.Files.{Keeps, initialize_enclave-Keeps}
use sgx_nfv.Loader.Home.{
  max_path, token_filename, token_path, strncpy, strncat, initialize_enclave_home,
}
use sgx_nfv.Loader.Home.Strings.{
  NoZero, NoZero-append, padded, string_of-padded, strncpy-padded, strncat-padded,
}

-- The path that is meant: in the home directory where its name leaves room, else in the working
-- directory.
unfoldable pub intended : Option Bytes → Bytes
intended none = token_filename
intended (some home_dir) =
    if leb (length home_dir + 16) 4096 then home_dir ++ (b'/' ∷ token_filename) else token_filename

abbrev pub IsText : Option Bytes → Type 0
IsText none = Unit
IsText (some s) = NoZero s

length-token_filename : length token_filename ≡ 13
unfolding token_filename
length-token_filename = refl

token_filename-NoZero : NoZero token_filename
unfolding token_filename
token_filename-NoZero = ground arith

-- The name alone, with its terminator.
alone :
    strncpy (replicate max_path 0) token_filename (length token_filename + 1)
    ≡ done (padded token_filename 4083)
alone =
    let k : 4096 - length token_filename ≡ 4083 = omega (arith, length-token_filename) in
    strncpy-padded token_filename 1 max_path (omega (arith, length-token_filename))
    ∙ ap (λ (n : ℕ). Outcome.done (padded token_filename n)) k

-- The three writes of the path in the home directory.
composed :
    (home : Bytes)
    → NoZero home
    → length home + 16 ≤ max_path
    → (strncpy (replicate max_path 0) home (length home) >>= λ a.
        strncat a (b'/' ∷ []) 1 >>= λ b. strncat b token_filename (length token_filename + 1 + 1))
      ≡ done (
          padded
            (home ++ (b'/' ∷ token_filename))
            (max_path - length home - 1 - length token_filename))
composed home text room =
    let n : length home ≡ length home + 0 = omega arith in
    let first =
      ap (strncpy (replicate max_path 0) home) n ∙ strncpy-padded home 0 max_path (omega arith) in
    let slash =
      strncat-padded home (b'/' ∷ []) 1 (max_path - length home) text (omega arith) (omega arith) in
    let dir = NoZero-append home (b'/' ∷ []) text (omega arith, tt) in
    let name =
      strncat-padded (home ++ (b'/' ∷ [])) token_filename (length token_filename + 1 + 1)
        (max_path - length home - 1) dir (omega arith) (omega (arith, length-token_filename)) in
    let whole : (home ++ (b'/' ∷ [])) ++ token_filename ≡ home ++ (b'/' ∷ token_filename) =
      append_assoc home (b'/' ∷ []) token_filename in
    rw (first, slash, name, whole) refl

-- The writes into the buffer of the path stay inside it and leave it zero behind the path, for every
-- home directory, which is a string of C: the path is the token file's in the home directory if the name
-- of that is at most 4080 bytes long, and else, and where there is no home directory, the token file's
-- alone.
pub token_path-intended :
    (home : Option Bytes)
    → IsText home
    → (k : ℕ) × (token_path home ≡ done (padded (intended home) k))
      × (length (intended home) + k ≡ max_path)
      × (1 ≤ k)
      × NoZero (intended home)
unfolding token_path intended
token_path-intended none text =
    (4083, alone, omega (arith, length-token_filename), omega arith, token_filename-NoZero)
token_path-intended (some home) text = elim (Bool-cases (leb (length home + 16) 4096)) [
  | inl fits ↦
      let room : length home + 16 ≤ max_path = ground arith in
      let test : leb (length home + 1 + (length token_filename + 1) + 1) max_path ≡ true =
        ground (arith, length-token_filename) in
      rw (test, fits)
        (
          max_path - length home - 1 - length token_filename,
          composed home text room,
          omega (arith, length-append home (b'/' ∷ token_filename), length-token_filename),
          omega (arith, length-token_filename),
          NoZero-append home (b'/' ∷ token_filename) text (omega arith, token_filename-NoZero),
        )
  | inr long ↦
      let test : leb (length home + 1 + (length token_filename + 1) + 1) max_path ≡ false =
        ground (arith, length-token_filename) in
      rw (test, long)
        (4083, alone, omega (arith, length-token_filename), omega arith, token_filename-NoZero)
]

-- Where the user is known, the loader works on the file of the intended path, for every home directory
-- and every disk: it closes each file that it opened, hands no partial token to the SDK, and writes no
-- token unless it gives 0. Where `getpwuid` finds no user it follows a NULL pointer.
initialize_enclave_home-Keeps :
    (disk : Bytes → Disk) (home : Option Bytes)
    → IsText home
    → (initialize_enclave_home disk none ≡ fault)
      × (i : Initialized) × (initialize_enclave_home disk (some home) ≡ done i)
      × Keeps (disk (intended home)) i
unfolding initialize_enclave_home
initialize_enclave_home-Keeps disk home text =
    let (k, path, size, some_zero, clean) = token_path-intended home text in
    (
      refl,
      initialize_enclave (disk (intended home)),
      rw (path, string_of-padded (intended home) k clean) refl,
      initialize_enclave-Keeps (disk (intended home)),
    )
