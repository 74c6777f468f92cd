-- ===== src/Tests/Names.antt =====
-- TXT data, the messages of dig, and lists of addresses and names.
use domaintest.Prelude.{length, ◌≡◌, refl, true, none, List, [], ◌∷◌, ◌++◌, map, arith}
use domaintest.Dig.Messages.{read_messages-append, run_dig_lem, IsOutcome}
use domaintest.Records.RoundTrip.{quote_strings, txt_strings-quote_strings}
use domaintest.Dig.{
  parse_dig_yaml, read_messages, DigMessage, has_flag, run_dig, message_records, is_message,
  is_dig_error,
}
use domaintest.Records.Parse.{txt_strings, parse_rr, unquote_yaml}
use domaintest.Text.{lit, Bytes, join}
use domaintest.Tests.Data.{texts, printed}

abbrev spf_text : Bytes
spf_text = lit "v=\"a\\\""

txt_tests :
    (txt_strings (lit "\"ab\" \"c\\\"d\"") ≡ lit "ab" ∷ lit "c\"d" ∷ [])
    × (txt_strings (lit "\"\\065b\"") ≡ lit "Ab" ∷ [])
    × (txt_strings (lit "plain") ≡ lit "plain" ∷ [])
unfolding texts txt_strings
txt_tests = (refl, refl, refl)

txt_strings-quote_strings_example :
    txt_strings (quote_strings ((92 ∷ 34 ∷ 200 ∷ []) ∷ [] ∷ (65 ∷ []) ∷ []))
    ≡ (92 ∷ 34 ∷ 200 ∷ []) ∷ [] ∷ (65 ∷ []) ∷ []
txt_strings-quote_strings_example =
    txt_strings-quote_strings (92 ∷ 34 ∷ 200 ∷ []) ([] ∷ (65 ∷ []) ∷ [])
      ((omega arith, (omega arith, (omega arith, tt))), (tt, ((omega arith, tt), tt)))

abbrev dig_lines : List Bytes
dig_lines =
    lit "- type: MESSAGE"
    ∷ lit "status: NOERROR"
    ∷ lit "flags: qr aa"
    ∷ lit "ANSWER_SECTION:"
    ∷ lit "- 'x.org. 60 IN SOA a. b. 7 1 1 1 1'"
    ∷ []

abbrev dig_output : Bytes
dig_output = join dig_lines (10 ∷ [])

dig_tests :
    (map (λ m. has_flag m (lit "aa")) (parse_dig_yaml dig_output) ≡ true ∷ [])
    × (map (λ m. length (message_records m (lit "SOA"))) (parse_dig_yaml dig_output) ≡ 1 ∷ [])
    × (map (λ m. m.status) (parse_dig_yaml dig_output) ≡ lit "NOERROR" ∷ [])
unfolding texts parse_dig_yaml has_flag message_records parse_rr unquote_yaml
dig_tests = (refl, refl, refl)

read_messages-append_example :
    read_messages none (dig_lines ++ (lit "- type: DIG_ERROR" ∷ lit "no servers" ∷ []))
    ≡ read_messages none dig_lines
      ++ read_messages none (lit "- type: DIG_ERROR" ∷ lit "no servers" ∷ [])
read_messages-append_example =
    read_messages-append none dig_lines (lit "- type: DIG_ERROR") (lit "no servers" ∷ [])
      (unfold texts is_message is_dig_error in refl)

run_dig_lem_example :
    ((m : DigMessage) × (ms : List DigMessage) × (run_dig (λ args. printed dig_output) [] ≡ m ∷ ms))
    × IsOutcome (printed dig_output) (run_dig (λ args. printed dig_output) [])
run_dig_lem_example = run_dig_lem (λ args. printed dig_output) []
