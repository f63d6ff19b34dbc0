-- ===== src/Tests/Names.antt =====
-- Names of the naming service, and calls of its table.
use mungi.Common.{◌+◌, ◌≤◌, ◌≡◌, refl, true, false, none, some, List, [], ◌∷◌, length}
use mungi.Common.Arrays.{update}
use mungi.Common.Checked.{done}
use mungi.Common.Strings.{same}
use mungi.Namehash.Path.{
  Name, dot, dot_dot, count_toks, skip_slashes, until_slash, after_slash, take_toks, nh_pathtok,
  nh_squash, compress_from, nh_compress, cat_tokens, nh_tok2str, is_absolute, path_len, absolute_of,
  nh_absolute,
}
use mungi.Namehash.Path.Tokens.{words}
use mungi.Namehash.Path.Compress.{unwind, walk, resolve, nh_compress-resolve}
use mungi.Namehash.Path.Absolute.{written, starts_at, nh_absolute-walk, nh_absolute-nh_absolute}
use mungi.Namehash.Path.Size.{nh_absolute-fits}
use mungi.Namehash.Table.{
  Namehash, Memory, nh_hash, insert_in, chain_of, with_chain, with_absolute, nh_insert, nh_init,
}
use mungi.Namehash.Table.Chain.{Distinct}
use mungi.Namehash.Table.Refines.{Valid, Call, insert, delete, find, modify, run}
use mungi.Namehash.Table.Calls.{answers, answers_spec, nh_init-answers}

-- `/a`, `b`, `../b/./c` and `/b/c`.
abbrev dir : Name
dir = b'/' ∷ b'a' ∷ []

abbrev file : Name
file = b'b' ∷ []

abbrev up : Name
up = b'.' ∷ b'.' ∷ b'/' ∷ b'b' ∷ b'/' ∷ b'.' ∷ b'/' ∷ b'c' ∷ []

abbrev target : Name
target = b'/' ∷ b'b' ∷ b'/' ∷ b'c' ∷ []

abbrev enough : Memory
enough = record { first = true; rest = true; heap = true }

abbrev none_left : Memory
none_left = record { first = true; rest = true; heap = false }

nh_compress-resolve_example :
    nh_compress (file ∷ dot_dot ∷ dot_dot ∷ dot ∷ file ∷ [])
    ≡ resolve (file ∷ dot_dot ∷ dot_dot ∷ dot ∷ file ∷ [])
nh_compress-resolve_example = nh_compress-resolve (file ∷ dot_dot ∷ dot_dot ∷ dot ∷ file ∷ [])

nh_absolute-walk_example :
    nh_absolute true true up dir
    ≡ done (some (written (unwind (walk (starts_at up dir) (words up)) [])))
nh_absolute-walk_example = nh_absolute-walk up dir

up_leads : nh_absolute true true up dir ≡ done (some target)
unfolding nh_absolute absolute_of nh_tok2str nh_compress compress_from nh_squash nh_pathtok
    take_toks count_toks skip_slashes until_slash after_slash cat_tokens is_absolute same
up_leads = refl

nh_absolute-nh_absolute_example : nh_absolute true true target dir ≡ done (some target)
nh_absolute-nh_absolute_example = nh_absolute-nh_absolute true true up dir target dir up_leads

nh_absolute-fits_example : length target + 1 ≤ path_len up dir + 2
nh_absolute-fits_example = nh_absolute-fits true true up dir target up_leads

abbrev empty_table : Namehash
empty_table = record { size = 8; table = λ i. [] }

eight_entries : nh_init true true true 8 ≡ done (some empty_table)
unfolding nh_init
eight_entries = refl

abbrev some_calls : List Call
some_calls =
    insert enough up 7 dir
    ∷ insert none_left file 8 dir
    ∷ insert enough target 9 dir
    ∷ modify enough target 10 dir
    ∷ find enough target dir
    ∷ delete enough target dir
    ∷ find enough up dir
    ∷ []

nh_init-answers_example : answers some_calls empty_table ≡ answers_spec some_calls (λ a. none)
nh_init-answers_example = nh_init-answers true true true 8 empty_table some_calls eight_entries

abbrev one_entry : Namehash
one_entry = record {
  size = 8;
  table = update (λ i. []) 0 (record { name = target; child = 7 } ∷ []);
}

empty-Valid : Valid empty_table
unfolding Distinct
empty-Valid i = tt

run_insert : run (insert enough up 7 dir) empty_table ≡ done ((0, none), one_entry)
unfolding run nh_insert with_absolute with_chain chain_of insert_in nh_hash nh_absolute absolute_of
    nh_tok2str nh_compress compress_from nh_squash nh_pathtok take_toks count_toks skip_slashes
    until_slash after_slash cat_tokens is_absolute same
run_insert = refl
