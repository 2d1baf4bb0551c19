-- ===== src/Bash/Lists.antt =====
-- The built-in lists of holmes/plugins/toolsets/bash/common, the configuration, and
-- `get_effective_lists` of validation.py.
use canis.Prelude.{
  ◌≡◌, ◌∙◌, ◌||◌, List, [], ◌∷◌, ◌++◌, Text, codes, elem, elem-append, sorted_set, elem-sorted_set,
  IsAscending, sorted_set-IsAscending,
}

abbrev pub hardcoded_blocks : List Text
hardcoded_blocks = codes "sudo" ∷ codes "su" ∷ []

unfoldable pub core_allow_list : List Text
core_allow_list =
    codes "kubectl get"
    ∷ codes "kubectl describe"
    ∷ codes "kubectl logs"
    ∷ codes "kubectl top"
    ∷ codes "kubectl explain"
    ∷ codes "kubectl api-resources"
    ∷ codes "kubectl config view"
    ∷ codes "kubectl config current-context"
    ∷ codes "kubectl cluster-info"
    ∷ codes "kubectl version"
    ∷ codes "kubectl auth can-i"
    ∷ codes "kubectl diff"
    ∷ codes "kubectl events"
    ∷ codes "jq"
    ∷ codes "grep"
    ∷ codes "head"
    ∷ codes "tail"
    ∷ codes "sort"
    ∷ codes "uniq"
    ∷ codes "wc"
    ∷ codes "cut"
    ∷ codes "tr"
    ∷ codes "id"
    ∷ codes "whoami"
    ∷ codes "hostname"
    ∷ codes "uname"
    ∷ codes "date"
    ∷ codes "which"
    ∷ codes "type"
    ∷ []

unfoldable pub extended_allow_list : List Text
extended_allow_list =
    core_allow_list
    ++ codes "cat"
      ∷ codes "echo"
      ∷ codes "base64"
      ∷ codes "ls"
      ∷ codes "find"
      ∷ codes "stat"
      ∷ codes "du"
      ∷ codes "df"
      ∷ codes "tar -tf"
      ∷ codes "tar -tvf"
      ∷ codes "tar -tfv"
      ∷ codes "tar -ftv"
      ∷ codes "gzip -l"
      ∷ codes "zcat"
      ∷ codes "zgrep"
      ∷ []

abbrev pub default_deny_list : List Text
default_deny_list = []

-- `Literal["none", "core", "extended"]`
pub data Builtin : Type 0 where
  no_builtin core extended : Builtin

pub record BashExecutorConfig : Type 0 where
  pub allow : List Text
  pub deny : List Text
  pub builtin_allowlist : Builtin

-- `BashExecutorConfig()`
abbrev pub default_config : BashExecutorConfig
default_config = record { allow = []; deny = []; builtin_allowlist = core }

unfoldable pub builtin_list : Builtin → List Text
builtin_list extended = extended_allow_list
builtin_list core = core_allow_list
builtin_list no_builtin = []

-- the allow list and the deny list
unfoldable pub get_effective_lists : BashExecutorConfig → List Text × List Text
unfolding builtin_list
get_effective_lists config = (
  sorted_set (builtin_list config.builtin_allowlist ++ config.allow),
  sorted_set (default_deny_list ++ config.deny),
)

-- Each effective list holds exactly the built-in and the configured entries, ascending and
-- without repeats, whatever the order and the repeats of the configuration.
pub get_effective_lists_members :
    (config : BashExecutorConfig) (x : Text)
    → let (allow_list, deny_list) = get_effective_lists config in
      (elem x allow_list ≡ (elem x (builtin_list config.builtin_allowlist) || elem x config.allow))
      × (elem x deny_list ≡ elem x config.deny)
      × IsAscending allow_list
      × IsAscending deny_list
unfolding get_effective_lists
get_effective_lists_members config x = (
  elem-sorted_set x (builtin_list config.builtin_allowlist ++ config.allow)
      ∙ elem-append x (builtin_list config.builtin_allowlist) config.allow,
  elem-sorted_set x config.deny,
  sorted_set-IsAscending _,
  sorted_set-IsAscending _,
)
