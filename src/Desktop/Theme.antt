-- ===== src/Desktop/Theme.antt =====
-- crates/oxide-ssh-desktop/src/state/theme.rs: the resolved theme and its terminal colours.
use oxide_ssh.Prelude.{ℕ, Bool, true, false, [], ◌∷◌, ◌/◌, ◌%◌, map}
use oxide_ssh.Model.Types.{ThemeSetting}
use oxide_ssh.Terminal.Types.{RgbColor, rgb, TerminalColors}

pub data ResolvedTheme : Type 0 where
  light dark : ResolvedTheme

unfoldable pub resolve : ThemeSetting → Bool → ResolvedTheme
resolve ThemeSetting.light system_is_dark = ResolvedTheme.light
resolve ThemeSetting.dark system_is_dark = ResolvedTheme.dark
resolve ThemeSetting.system true = ResolvedTheme.dark
resolve ThemeSetting.system false = ResolvedTheme.light

-- The three bytes of a number below 2 ^ 24.
abbrev pub rgb_color : ℕ → RgbColor
rgb_color n = rgb (n / 65536 % 256) (n / 256 % 256) (n % 256)

unfoldable pub terminal_colors : ResolvedTheme → TerminalColors
terminal_colors ResolvedTheme.dark = record {
  foreground = rgb_color 0xe8e6dc;
  background = rgb_color 0x1f1e1d;
  cursor = rgb_color 0xd97757;
  ansi = map rgb_color (
      0x1b1d23 ∷ 0xe06c75 ∷ 0x98c379 ∷ 0xe5c07b ∷ 0x61afef ∷ 0xc678dd ∷ 0x56b6c2 ∷ 0xabb2bf
      ∷ 0x5c6370 ∷ 0xff7b86 ∷ 0xb3e98c ∷ 0xffd68a ∷ 0x76c7ff ∷ 0xd99bff ∷ 0x70e1ed ∷ 0xf5f7fa ∷ []);
}
terminal_colors ResolvedTheme.light = record {
  foreground = rgb_color 0x1f1e1d;
  background = rgb_color 0xfaf9f5;
  cursor = rgb_color 0xd97757;
  ansi = map rgb_color (
      0x202124 ∷ 0xb4232c ∷ 0x2f7d32 ∷ 0x8a5a00 ∷ 0x005fb8 ∷ 0x7a3e9d ∷ 0x007a7a ∷ 0xdadce0
      ∷ 0x5f6368 ∷ 0xd93025 ∷ 0x188038 ∷ 0xb06000 ∷ 0x1967d2 ∷ 0x9334e6 ∷ 0x008b8b ∷ 0xffffff ∷ []);
}
