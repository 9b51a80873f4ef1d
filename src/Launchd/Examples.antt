-- ===== src/Launchd/Examples.antt =====
use d_inference.Launchd.Plist.{
  extract_program_arguments, migrated, xml_escape, render_launchd_plist,
}
use d_inference.Launchd.RoundTrip.{migrated-migrated, extract_program_arguments-render}
use d_inference.Launchd.Options.{
  LegacyOption, IsLegacy, command_line, legacy_words, swift_words,
  convert_rust_args_to_swift-command_line,
}
use d_inference.Launchd.Args.{convert_rust_args_to_swift, swift_flag}
use d_inference.Prelude.{List, Text, All, codes, ◌≡◌, refl, some, ◌∷◌, [], map}

-- The migration of a small launchd file (provider/src/main.rs).

abbrev old_plist : Text
old_plist =
    codes
      "<dict><key>Label</key><string>io</string><key>ProgramArguments</key> <array><string>/old</string> <string>serve</string><string>--coordinator</string><string>wss://a</string><string>--port</string><string>81</string></array><key>KeepAlive</key><true/></dict>"

abbrev old_args : List Text
old_args =
    codes "/old"
    ∷ codes "serve"
    ∷ codes "--coordinator"
    ∷ codes "wss://a"
    ∷ codes "--port"
    ∷ codes "81"
    ∷ []

abbrev new_args : List Text
new_args =
    codes "/new"
    ∷ codes "start"
    ∷ codes "--foreground"
    ∷ codes "--coordinator-url"
    ∷ codes "wss://a"
    ∷ []

abbrev new_plist : Text
new_plist =
    codes
      "<dict><key>Label</key><string>io</string><key>ProgramArguments</key> <array>\n        <string>/new</string>\n        <string>start</string>\n        <string>--foreground</string>\n        <string>--coordinator-url</string>\n        <string>wss://a</string>\n    </array><key>KeepAlive</key><true/></dict>"

extract_old : extract_program_arguments old_plist ≡ some old_args
unfolding extract_program_arguments
extract_old = refl

migrated_old : migrated (codes "/new") old_plist ≡ some new_plist
unfolding migrated
migrated_old = refl

-- An option's value is read as XML text and escaped once more when it is written.
migrated_escapes :
    migrated (codes "/n") (
      codes
        "<key>ProgramArguments</key><array><string>o</string><string>serve</string><string>--model</string><string>a&amp;b</string></array>")
    ≡ some (
        codes
          "<key>ProgramArguments</key><array>\n        <string>/n</string>\n        <string>start</string>\n        <string>--foreground</string>\n        <string>--model</string>\n        <string>a&amp;amp;b</string>\n    </array>")
unfolding migrated
migrated_escapes = refl

new_args_plain : All (λ a. xml_escape a ≡ a) (convert_rust_args_to_swift old_args (codes "/new"))
unfolding xml_escape convert_rust_args_to_swift
new_args_plain = (refl, (refl, (refl, (refl, (refl, tt)))))

abbrev old_options : List LegacyOption
old_options =
    LegacyOption.coordinator (codes "wss://a")
    ∷ LegacyOption.dropped (codes "--port")
    ∷ LegacyOption.dropped (codes "81")
    ∷ LegacyOption.model (codes "--model")
    ∷ []

old_options-IsLegacy : All IsLegacy old_options
unfolding swift_flag
old_options-IsLegacy = (tt, (refl, (refl, (tt, tt))))

extract_program_arguments-render_example :
    extract_program_arguments new_plist ≡ some (map xml_escape new_args)
extract_program_arguments-render_example =
    extract_program_arguments-render new_args old_plist new_plist refl
      (unfold render_launchd_plist in refl)

migrated-migrated_example : migrated (codes "/new") new_plist ≡ some new_plist
migrated-migrated_example =
    migrated-migrated (codes "/new") old_plist new_plist old_args extract_old new_args_plain
      migrated_old

convert_rust_args_to_swift-command_line_example :
    convert_rust_args_to_swift
      (codes "/old" ∷ codes "serve" ∷ command_line legacy_words old_options)
      (codes "/new")
    ≡ codes "/new" ∷ codes "start" ∷ codes "--foreground" ∷ command_line swift_words old_options
convert_rust_args_to_swift-command_line_example =
    convert_rust_args_to_swift-command_line old_options (codes "/old") (codes "serve")
      (codes "/new") old_options-IsLegacy
