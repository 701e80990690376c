-- ===== src/Assets/Cleaned.antt =====
-- Keys and tags are trimmed and in lower case: doing it again changes nothing.
use bonipam.Common.{String, ◌≡◌, ap, ◌∙◌}
use bonipam.Go.Text.{trim_space, to_lower}
use bonipam.Go.Text.Trimmed.{trim_space_twice}
use bonipam.Go.Text.Lowered.{to_lower_twice, trim_space-to_lower}
use bonipam.Assets.Metadata.{clean}

pub clean_twice : (s : String) → clean (clean s) ≡ clean s
unfolding clean
clean_twice s =
    ap to_lower (trim_space-to_lower (trim_space s) ∙ ap to_lower (trim_space_twice s))
    ∙ to_lower_twice (trim_space s)

pub clean-trim_space : (s : String) → clean (trim_space s) ≡ clean s
unfolding clean
clean-trim_space s = ap to_lower (trim_space_twice s)
