-- ===== src/Dig/Messages.antt =====
-- Each message of dig's output is read from its own lines.
use domaintest.Prelude.{
  if◌then◌else◌, length, keep, ℕ, ◌+◌, ◌≡◌, refl, sym, ap, ◌∙◌, ◌≢◌, ◌⊎◌, inl, inr, Bool, true,
  false, ◌||◌, Option, none, some, List, [], ◌∷◌, ◌++◌, arith,
}
use domaintest.Trace.Ask.{Runner, RunResult}
use domaintest.Dig.{
  DigState, read_messages, run_dig, is_message, DigMessage, continued, fresh, emit, is_dig_error,
  parse_dig_yaml, no_output, or_no_output, failed_message,
}
use domaintest.Text.{Bytes, lit, first_non_empty, trim_space}

abbrev pub is_header : Bytes → Bool
is_header line = is_message line || is_dig_error line

-- The number of lines that begin a message.
abbrev pub headers : List Bytes → ℕ
headers lines = length (keep is_header lines)

abbrev pub pending : Option DigState → ℕ
pending none = 0
pending (some s) = 1

length-emit :
    (cur : Option DigState) (ms : List DigMessage) → length (emit cur ms) ≡ pending cur + length ms
length-emit none ms = omega arith
length-emit (some s) ms = omega arith

pending-continued :
    (cur : Option DigState) (line : Bytes) → pending (continued cur line) ≡ pending cur
pending-continued none line = refl
pending-continued (some s) line = refl

-- Reading gives one message for each line that begins one, besides the message being read.
pub length-read_messages :
    (cur : Option DigState) (lines : List Bytes)
    → length (read_messages cur lines) ≡ pending cur + headers lines
unfolding read_messages
length-read_messages cur [] = length-emit cur []
length-read_messages cur (line ∷ rest) =
    let m = length-emit cur (read_messages (some (fresh false)) rest) in
    let e = length-emit cur (read_messages (some (fresh true)) rest) in
    ground (
      arith,
      m,
      e,
      pending-continued cur line,
      length-read_messages (some (fresh false)) rest,
      length-read_messages (some (fresh true)) rest,
      length-read_messages (continued cur line) rest,
    )

emit-append :
    (cur : Option DigState) (xs ys : List DigMessage) → emit cur (xs ++ ys) ≡ emit cur xs ++ ys
emit-append none xs ys = refl
emit-append (some s) xs ys = refl

read_header :
    (cur : Option DigState) (h : Bytes) (ys : List Bytes)
    → is_header h ≡ true
    → read_messages cur (h ∷ ys) ≡ emit cur (read_messages none (h ∷ ys))
unfolding read_messages
read_header cur h ys e = ground arith

abbrev choose : Bool → Bool → List DigMessage → List DigMessage → List DigMessage → List DigMessage
choose a b p q r = if a then p else if b then q else r

choose-append :
    (a b : Bool) (p q r z : List DigMessage)
    → choose a b (p ++ z) (q ++ z) (r ++ z) ≡ choose a b p q r ++ z
choose-append a b p q r z = ground arith

read_messages-nil : (cur : Option DigState) → read_messages cur [] ≡ emit cur []
unfolding read_messages
read_messages-nil cur = refl

read_messages-cons :
    (cur : Option DigState) (line : Bytes) (rest : List Bytes)
    → read_messages cur (line ∷ rest)
      ≡ choose
          (is_message line)
          (is_dig_error line)
          (emit cur (read_messages (some (fresh false)) rest))
          (emit cur (read_messages (some (fresh true)) rest))
          (read_messages (continued cur line) rest)
unfolding read_messages
read_messages-cons cur line rest = refl

-- The messages before a line that begins a message do not depend on what follows, nor the
-- messages from it on, on what precedes: the output may be read in parts.
pub read_messages-append :
    (cur : Option DigState) (xs : List Bytes) (h : Bytes) (ys : List Bytes)
    → is_header h ≡ true
    → read_messages cur (xs ++ (h ∷ ys)) ≡ read_messages cur xs ++ read_messages none (h ∷ ys)
read_messages-append cur [] h ys e =
    read_header cur h ys e
    ∙ emit-append cur [] (read_messages none (h ∷ ys))
    ∙ ap (λ ms. ms ++ read_messages none (h ∷ ys)) (sym (read_messages-nil cur))
read_messages-append cur (x ∷ xs) h ys e =
    let z = read_messages none (h ∷ ys) in
    let p = read_messages (some (fresh false)) xs in
    let q = read_messages (some (fresh true)) xs in
    rw
      (
        read_messages-cons cur x (xs ++ (h ∷ ys)),
        read_messages-cons cur x xs,
        read_messages-append (some (fresh false)) xs h ys e,
        read_messages-append (some (fresh true)) xs h ys e,
        read_messages-append (continued cur x) xs h ys e,
        emit-append cur p z,
        emit-append cur q z,
      )
      (choose-append (is_message x) (is_dig_error x) (emit cur p) (emit cur q)
        (read_messages (continued cur x) xs) z)

no_output-ne : (res : RunResult) → no_output res ≢ []
unfolding no_output first_non_empty lit
no_output-ne res = ground arith

timed_out-ne : lit "dig timed out" ≢ []
unfolding lit
timed_out-ne h = ground arith

-- What a run gives: an error alone where dig timed out, or where its output has no message, and
-- then the text of the error is dig's own where it gave one; else the messages of the output.
abbrev pub IsOutcome : RunResult → List DigMessage → Type 0
IsOutcome res ms =
    ((res.timed_out ≡ true) × (ms ≡ failed_message (lit "dig timed out") ∷ []))
    ⊎ (((res.timed_out ≡ false)
          × (parse_dig_yaml res.stdout ≡ [])
          × ((e : Bytes) × (ms ≡ failed_message e ∷ [])
              × (e ≢ [])
              × ((trim_space res.stderr ≡ []) ⊎ (e ≡ trim_space res.stderr))))
        ⊎ ((res.timed_out ≡ false)
            × (parse_dig_yaml res.stdout ≢ [])
            × (ms ≡ parse_dig_yaml res.stdout)))

no_output_lem :
    (res : RunResult) → (trim_space res.stderr ≡ []) ⊎ (no_output res ≡ trim_space res.stderr)
unfolding no_output first_non_empty
no_output_lem res = ground arith

or_no_output-cons :
    (res : RunResult) (ms : List DigMessage)
    → (m : DigMessage) × (ms' : List DigMessage) × (or_no_output res ms ≡ m ∷ ms')
or_no_output-cons res [] = (failed_message (no_output res), [], refl)
or_no_output-cons res (m ∷ ms) = (m, ms, refl)

run_dig-IsOutcome :
    (res : RunResult) (ms : List DigMessage)
    → res.timed_out ≡ false
    → parse_dig_yaml res.stdout ≡ ms
    → IsOutcome res (or_no_output res ms)
run_dig-IsOutcome res [] h e =
    inr (inl (h, e, (no_output res, refl, no_output-ne res, no_output_lem res)))
run_dig-IsOutcome res (m ∷ ms) h e = inr (inr (h, (λ q. absurd (cc (e, q))), sym e))

run_dig-cases :
    (b : Bool) (res : RunResult)
    → res.timed_out ≡ b
    → let ms =
        if b
        then failed_message (lit "dig timed out") ∷ []
        else or_no_output res (parse_dig_yaml res.stdout) in
      ((m : DigMessage) × (ms' : List DigMessage) × (ms ≡ m ∷ ms')) × IsOutcome res ms
run_dig-cases true res h = ((failed_message (lit "dig timed out"), [], refl), inl (h, refl))
run_dig-cases false res h =
    (or_no_output-cons res (parse_dig_yaml res.stdout), run_dig-IsOutcome res _ h refl)

-- A run of dig gives a message whatever happens. It is an error alone exactly as the run asks for
-- it: "dig timed out" where dig timed out, and else, where the output has no message, a text that
-- is not empty and is what dig wrote to stderr, if it wrote anything. Where dig ended in time and
-- its output has messages, the run gives these.
pub run_dig_lem :
    (run : Runner) (args : List Bytes)
    → ((m : DigMessage) × (ms : List DigMessage) × (run_dig run args ≡ m ∷ ms))
      × IsOutcome (run args) (run_dig run args)
unfolding run_dig
run_dig_lem run args = run_dig-cases (run args).timed_out (run args) refl
