-- ===== src/Dig.antt =====
-- dig.go: the messages of `dig +yaml`, read by a state machine over its lines.
pub mod Messages
use domaintest.Prelude.{
  if◌then◌else◌, is_nil, drop, any, keep, Bool, true, false, not, ◌&&◌, Option, none, some, List,
  [], ◌∷◌, ◌++◌, map,
}
use domaintest.Text.{
  Bytes, ◌=?◌, trim_space, has_prefix, lit, trim_prefix, fields, split, first_non_empty, has_suffix,
  trim_suffix,
}
use domaintest.Records.{Rr}
use domaintest.Records.Parse.{parse_rr, unquote_yaml}
use domaintest.Trace.Ask.{Runner, RunResult}

-- `digMessage`
pub record DigMessage : Type 0 where
  pub status : Bytes
  pub flags : List Bytes
  pub protocol : Bytes
  pub answer : List Rr
  pub authority : List Rr
  pub additional : List Rr
  pub opt : Bool
  pub edns_flags : List Bytes
  pub error : Bytes

-- `digMessage{}`
abbrev pub empty_message : DigMessage
empty_message = record {
  status = [];
  flags = [];
  protocol = [];
  answer = [];
  authority = [];
  additional = [];
  opt = false;
  edns_flags = [];
  error = [];
}

-- `hasFlag` and `records`
unfoldable pub has_flag : DigMessage → Bytes → Bool
has_flag m f = any (λ x. x =? f) m.flags

unfoldable pub message_records : DigMessage → Bytes → List Rr
message_records m rtype = keep (λ rr. rr.rtype =? rtype) m.answer

-- The variables of `parseDigYAML`: the message being read, the section, and whether the lines are
-- those of the EDNS part or of an error.
pub record DigState : Type 0 where
  pub cur : DigMessage
  pub section : Bytes
  pub in_edns : Bool
  pub in_error : Bool

-- `appendSection`
unfoldable pub append_section : DigMessage → Bytes → Rr → DigMessage
append_section m section rr =
    if section =? lit "ANSWER"
    then record m { answer = m.answer ++ rr ∷ [] }
    else if section =? lit "AUTHORITY"
    then record m { authority = m.authority ++ rr ∷ [] }
    else if section =? lit "ADDITIONAL"
    then record m { additional = m.additional ++ rr ∷ [] }
    else m

append_parsed : DigMessage → Bytes → Option Rr → DigMessage
append_parsed m section none = m
append_parsed m section (some rr) = append_section m section rr

value_of : Bytes → Bytes → Bytes
value_of key line = trim_space (trim_prefix key line)

set_flags : DigState → List Bytes → DigState
set_flags s fs =
    if s.in_edns
    then record s { cur = record s.cur { edns_flags = fs } }
    else record s { cur = record s.cur { flags = fs } }

-- `parseDigLine`
unfoldable pub parse_dig_line : DigState → Bytes → DigState
unfolding append_section append_parsed value_of set_flags
parse_dig_line s line =
    if has_prefix (lit "socket_protocol:") line
    then record s { cur = record s.cur { protocol = value_of (lit "socket_protocol:") line } }
    else if has_prefix (lit "status:") line
    then record s { cur = record s.cur { status = value_of (lit "status:") line } }
    else if line =? lit "OPT_PSEUDOSECTION:"
    then record s { in_edns = true }
    else if line =? lit "EDNS:"
    then record s { cur = record s.cur { opt = true } }
    else if has_prefix (lit "flags:") line
    then set_flags s (fields (trim_prefix (lit "flags:") line))
    else if has_suffix (lit "_SECTION:") line
    then record s { section = trim_suffix (lit "_SECTION:") line; in_edns = false }
    else if has_prefix (lit "- '") line
    then record s { cur = append_parsed s.cur s.section (parse_rr (unquote_yaml (drop 2 line))) }
    else s

-- The two lines that begin a message, and the state behind each.
unfoldable pub is_message : Bytes → Bool
is_message line = line =? lit "- type: MESSAGE"

unfoldable pub is_dig_error : Bytes → Bool
is_dig_error line = line =? lit "- type: DIG_ERROR"

abbrev pub fresh : Bool → DigState
fresh in_error = record { cur = empty_message; section = []; in_edns = false; in_error = in_error }

-- A line of the error text: all but `message:` and blank lines are collected.
unfoldable pub error_line : DigState → Bytes → DigState
error_line s line =
    if not (has_prefix (lit "message:") line) && not (is_nil line)
    then record s { cur = record s.cur { error = trim_space (s.cur.error ++ (lit " " ++ line)) } }
    else s

abbrev pub other_line : DigState → Bytes → DigState
other_line s line = if s.in_error then error_line s line else parse_dig_line s line

-- The message being read, if there is one.
abbrev pub emit : Option DigState → List DigMessage → List DigMessage
emit none rest = rest
emit (some s) rest = s.cur ∷ rest

abbrev pub continued : Option DigState → Bytes → Option DigState
continued none line = none
continued (some s) line = some (other_line s line)

-- The loop of `parseDigYAML`, over trimmed lines. A message is given out where the next one begins.
unfoldable pub read_messages : Option DigState → List Bytes → List DigMessage
read_messages cur [] = emit cur []
read_messages cur (line ∷ rest) =
    let message = emit cur (read_messages (some (fresh false)) rest) in
    let failure = emit cur (read_messages (some (fresh true)) rest) in
    let more = read_messages (continued cur line) rest in
    if is_message line then message else if is_dig_error line then failure else more

-- `parseDigYAML`
unfoldable pub parse_dig_yaml : Bytes → List DigMessage
unfolding read_messages parse_dig_line error_line is_message is_dig_error
parse_dig_yaml out = read_messages none (map trim_space (split out b'\n'))

abbrev pub failed_message : Bytes → DigMessage
failed_message e = record empty_message { error = e }

-- The text of the message that stands for a run without messages.
abbrev or_failure : Bytes → Option Bytes → Bytes
or_failure detail none = detail
or_failure detail (some e) = if is_nil detail then e else detail

unfoldable pub no_output : RunResult → Bytes
no_output res =
    first_non_empty
      (or_failure (trim_space res.stderr) res.failure ∷ lit "dig produced no output" ∷ [])

abbrev pub or_no_output : RunResult → List DigMessage → List DigMessage
or_no_output res [] = failed_message (no_output res) ∷ []
or_no_output res (m ∷ ms) = m ∷ ms

-- `runDig`
unfoldable pub run_dig : Runner → List Bytes → List DigMessage
unfolding no_output parse_dig_yaml
run_dig run args =
    let res = run args in
    if res.timed_out
    then failed_message (lit "dig timed out") ∷ []
    else or_no_output res (parse_dig_yaml res.stdout)
