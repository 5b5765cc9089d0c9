-- ===== src/Tests/Publishing.antt =====
-- An unpacking of a plain file, and what it publishes.
use unpacker.Base.{◌≡◌, refl, [], ◌∷◌, some}
use unpacker.Base.Text.{codes, bytes_eq, has_prefix, contains_byte}
use unpacker.Base.Word.{add_i64, sub_i64, lt_i64}
use unpacker.Path.{
  split_from, split, join_slash, is_rooted, push, walk, render, clean, join, join_all, directory,
  dir,
}
use unpacker.Errors.{ok}
use unpacker.System.{
  World, file, folder, call, prefixes, ancestors, is_given, make_dirs, mkdir_all, has_folder,
  open_file, write, flush, read_file, open_source, read_source, remove_all, rename, read_dir,
  stat_ok, find, put, within, remove_tree, move_tree, occupied, name_le, insert_name, names_entry,
  list_dir,
}
use unpacker.Limits.{or_default, with_defaults}
use unpacker.Compression.{sniff_compression}
use unpacker.Extract.{copy_window, copy_through, check_copied, copy_limited}
use unpacker.Unpack.{
  allowed_layers, first_file, first_file_is_archive, copy_entries, copy_files, unpack_into, unpack,
}
use unpacker.Unpack.Publish.{Published, unpack-publishes}
use unpacker.Tests.Worlds.{tools, config, start}

abbrev in_tmp : World
in_tmp = record start {
  disk =
      (codes "o", folder 0o755)
      ∷ (codes "o/tmp", folder 0o755)
      ∷ (codes "o/tmp/a", file 0o644 (codes "a"))
      ∷ [];
}

abbrev unpacked : World
unpacked = (unpack tools config in_tmp).1

unpacks : unpack tools config in_tmp ≡ (ok tt, unpacked)
unfolding bytes_eq has_prefix contains_byte add_i64 sub_i64 lt_i64 or_default with_defaults
    split_from split join_slash is_rooted push walk render clean join join_all directory dir call
    prefixes ancestors is_given make_dirs mkdir_all has_folder open_file write flush read_file find
    put remove_all rename read_dir stat_ok within remove_tree move_tree occupied name_le insert_name
    names_entry list_dir allowed_layers first_file first_file_is_archive open_source read_source
    copy_entries copy_files unpack_into unpack sniff_compression copy_window copy_through
    check_copied copy_limited
unpacks = refl

unpack-publishes_example : Published tools config in_tmp unpacked
unpack-publishes_example = unpack-publishes tools config in_tmp unpacked unpacks

is_published : find (codes "o/image/a") unpacked.disk ≡ some (file 0o666 (codes "a"))
unfolding bytes_eq has_prefix contains_byte add_i64 sub_i64 lt_i64 or_default with_defaults
    split_from split join_slash is_rooted push walk render clean join join_all directory dir call
    prefixes ancestors is_given make_dirs mkdir_all has_folder open_file write flush read_file find
    put remove_all rename read_dir stat_ok within remove_tree move_tree occupied name_le insert_name
    names_entry list_dir allowed_layers first_file first_file_is_archive open_source read_source
    copy_entries copy_files unpack_into unpack sniff_compression copy_window copy_through
    check_copied copy_limited
is_published = refl
