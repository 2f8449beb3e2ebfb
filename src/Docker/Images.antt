-- ===== src/Docker/Images.antt =====
-- The official images (crates/controller/src/docker.rs).
use Prim.Native.String
use webtop_manager.Prelude.{String, Bool, true, false, List, [], ◌∷◌, any, str_eq}

pub record OfficialImageDefinition : Type 0 where
  pub tag : String
  pub distribution : String
  pub desktop : String
  pub wayland_support : Bool
  pub wayland_only : Bool

abbrev image : String → String → String → Bool → Bool → OfficialImageDefinition
image tag distribution desktop wayland_support wayland_only = record {
  tag = tag;
  distribution = distribution;
  desktop = desktop;
  wayland_support = wayland_support;
  wayland_only = wayland_only;
}

abbrev pub official_webtop_images : List OfficialImageDefinition
official_webtop_images =
    image "latest" "Alpine" "XFCE" true false
    ∷ image "alpine-i3" "Alpine" "i3" true false
    ∷ image "alpine-kde" "Alpine" "KDE" true true
    ∷ image "alpine-mate" "Alpine" "MATE" false false
    ∷ image "arch-i3" "Arch" "i3" true false
    ∷ image "arch-kde" "Arch" "KDE" true false
    ∷ image "arch-mate" "Arch" "MATE" false false
    ∷ image "arch-xfce" "Arch" "XFCE" true false
    ∷ image "debian-i3" "Debian" "i3" true false
    ∷ image "debian-kde" "Debian" "KDE" false false
    ∷ image "debian-mate" "Debian" "MATE" false false
    ∷ image "debian-xfce" "Debian" "XFCE" false false
    ∷ image "fedora-i3" "Fedora" "i3" true false
    ∷ image "fedora-kde" "Fedora" "KDE" true false
    ∷ image "fedora-mate" "Fedora" "MATE" false false
    ∷ image "fedora-xfce" "Fedora" "XFCE" true false
    ∷ image "ubuntu-i3" "Ubuntu" "i3" true false
    ∷ image "ubuntu-kde" "Ubuntu" "KDE" true true
    ∷ image "ubuntu-mate" "Ubuntu" "MATE" false false
    ∷ image "ubuntu-xfce" "Ubuntu" "XFCE" true false
    ∷ []

abbrev official_reference : String → String
official_reference tag = String.◌++◌ "lscr.io/linuxserver/webtop:" tag

unfoldable pub is_official_image : String → Bool
is_official_image reference =
    any (λ i. str_eq (official_reference i.tag) reference) official_webtop_images
